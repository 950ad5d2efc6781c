-- ===== src/Users/Retries.antt =====
-- The attempts of a creation: the first draw whose token is free.
use over_vpn.Base.{
  ℕ, zero, suc, Bool, false, not, List, [], ◌∷◌, ◌++◌, any, Option, none, some, Text, codes, Result,
  ok, throw, ◌≡◌, refl, arith, Bool-cases, inl, inr, if◌then◌else◌, ap, ◌∙◌,
}
use over_vpn.CoreApply.{InboundMark}
use over_vpn.PlanSync.{SyncError}
use over_vpn.Users.{
  Account, Db, Failure, sub_token_taken, unique_constraint, retry, name_clashes, token_clashes,
  record_pending,
}
use over_vpn.Users.Save.{CreateUser, Draw, mapped, new_account, create_once, create}

-- The first of some numbers that a test accepts.
abbrev pub first_free : (ℕ → Bool) → List ℕ → Option ℕ
first_free free [] = none
first_free free (n ∷ ns) = if free n then some n else first_free free ns

abbrev pub numbers_from : ℕ → ℕ → List ℕ
numbers_from zero n = []
numbers_from (suc k) n = n ∷ numbers_from k (suc n)

-- A result, or an error where there is none.
abbrev pub or_throw : {A : Type 0} → Failure → (ℕ → A) → Option ℕ → Result {0, 0} Failure A
or_throw e f none = throw e
or_throw e f (some n) = ok (f n)

mapped-or_throw :
    {A : Type 0} (f : ℕ → A) (o : Option ℕ)
    → mapped (or_throw sub_token_taken f o) ≡ or_throw unique_constraint f o
mapped-or_throw f none = refl
mapped-or_throw f (some n) = refl

retry-first_free :
    {A : Type 0} (free : ℕ → Bool) (f : ℕ → A) (attempt : ℕ → Result Failure A) (left n : ℕ)
    → ((n : ℕ) → attempt n ≡ (if free n then ok (f n) else throw sub_token_taken))
    → retry (suc left) n attempt
      ≡ or_throw sub_token_taken f (first_free free (n ∷ numbers_from left (suc n)))
unfolding retry
retry-first_free free f attempt zero n h = elim (Bool-cases (free n)) [
  | inl good ↦ rw (h n, good) refl
  | inr taken ↦ rw (h n, taken) refl
]
retry-first_free free f attempt (suc left) n h = elim (Bool-cases (free n)) [
  | inl good ↦ rw (h n, good) refl
  | inr taken ↦ rw (h n, taken) (ground (arith, retry-first_free free f attempt left (suc n) h))
]

abbrev pub has_free_token : (ℕ → Draw) → Db → ℕ → Bool
has_free_token draw db n = not (any (token_clashes (draw n).id (draw n).token) db.accounts)

-- What a creation without a plan leaves.
abbrev pub created : CreateUser → Draw → Db → Account × Db
created input d db = (
  new_account input none d,
  record_pending (codes "create") d.id
      (record db { accounts = db.accounts ++ new_account input none d ∷ [] }),
)

module _ (credential : Text → InboundMark → Result SyncError Text)
    (fresh_id : Text → Text → Text) where
  create_once-no_plan :
      (input : CreateUser) (d : Draw) (db : Db)
      → input.plan_id ≡ none
      → any (name_clashes d.id input.username (new_account input none d).identity) db.accounts
        ≡ false
      → create_once credential fresh_id input d db ≡ (
          if not (any (token_clashes d.id d.token) db.accounts)
          then ok (created input d db)
          else throw sub_token_taken)
  unfolding create_once
  create_once-no_plan input d db planless named =
      rw (planless, named)
        (elim (Bool-cases (any (token_clashes d.id d.token) db.accounts)) [
          | inl taken ↦ rw taken refl
          | inr free ↦ rw free refl
        ])

  -- A creation without a plan, whose name and identity are free for each id that is drawn, gives
  -- the user of the first of five draws whose token is free and adds it with a pending change, or
  -- throws a conflict when no draw has a free token.
  pub create_takes_first_free :
      (input : CreateUser) (draw : ℕ → Draw) (db : Db)
      → input.plan_id ≡ none
      → ((n : ℕ)
          → any
              (name_clashes (draw n).id input.username (new_account input none (draw n)).identity)
              db.accounts
            ≡ false)
      → create credential fresh_id input draw db
        ≡ or_throw unique_constraint
            (λ n. created input (draw n) db)
            (first_free (has_free_token draw db) (numbers_from 5 0))
  unfolding create
  create_takes_first_free input draw db planless named =
      ap mapped (
        retry-first_free (has_free_token draw db) (λ n. created input (draw n) db)
          (λ n. create_once credential fresh_id input (draw n) db) 4 0
          (λ n. create_once-no_plan input (draw n) db planless (named n)))
      ∙ mapped-or_throw (λ n. created input (draw n) db)
          (first_free (has_free_token draw db) (numbers_from 5 0))
