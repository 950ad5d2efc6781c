-- ===== src/DailyUsage/Batch.antt =====
-- The rows of the ledger that wait, under the updates of one transaction.
use mathlib.Core.Path.{subst}
use over_vpn.Base.{
  ℕ, zero, suc, true, false, not, ◌&&◌, ◌||◌, List, [], ◌∷◌, take, some, All, if◌then◌else◌, ==_iff,
  ◌≡◌, ◌≢◌, refl, arith, ap, ◌∙◌, sym, Bool-cases, inl, inr,
}
use over_vpn.DailyUsage.{LedgerRow, is_pending, pending, is_id, ids_of, mark, is_old, prune}

abbrev pub drop {ℓ} : {A : Type ℓ} → ℕ → List A → List A
drop zero xs = xs
drop (suc n) [] = []
drop (suc n) (x ∷ xs) = drop n xs

-- Every id stands once.
abbrev pub Distinct : List LedgerRow → Type 0
Distinct [] = Unit
Distinct (r ∷ rs) = All (λ s. r.id ≢ s.id) rs × Distinct rs

pub pending-prune : (cutoff : ℕ) (rs : List LedgerRow) → pending (prune cutoff rs) ≡ pending rs
unfolding pending prune
pending-prune cutoff [] = refl
pending-prune cutoff (r ∷ rs) = ground (arith, pending-prune cutoff rs)

-- An id that no row has marks nothing.
mark-other :
    (id : ℕ) (ids : List ℕ) (now : ℕ) (rs : List LedgerRow)
    → All (λ r. id ≢ r.id) rs
    → mark (id ∷ ids) now rs ≡ mark ids now rs
unfolding mark
mark-other id ids now [] h = refl
mark-other id ids now (r ∷ rs) (d, h) = ground (arith, mark-other id ids now rs h, ==_iff id r.id)

mark-none : (now : ℕ) (rs : List LedgerRow) → mark [] now rs ≡ rs
unfolding mark
mark-none now [] = refl
mark-none now (r ∷ rs) = ap (λ x. r ∷ x) (mark-none now rs)

pending-waiting :
    (r : LedgerRow) (rs : List LedgerRow) → is_pending r ≡ true → pending (r ∷ rs) ≡ r ∷ pending rs
unfolding pending
pending-waiting r rs e = rw e refl

pending-done :
    (r : LedgerRow) (rs : List LedgerRow) → is_pending r ≡ false → pending (r ∷ rs) ≡ pending rs
unfolding pending
pending-done r rs e = rw e refl

-- The first row, named by the batch or done before, waits no more.
pending-marked :
    (ids : List ℕ) (now : ℕ) (r : LedgerRow) (rs : List LedgerRow)
    → is_id ids r.id || not (is_pending r) ≡ true
    → pending (mark ids now (r ∷ rs)) ≡ pending (mark ids now rs)
unfolding pending mark
pending-marked ids now r rs e = ground arith

done_marked :
    (ids : List ℕ) (r : LedgerRow)
    → is_pending r ≡ false
    → is_id ids r.id || not (is_pending r) ≡ true
done_marked ids r e = ground arith

is_id-first : (id : ℕ) (ids : List ℕ) → is_id (id ∷ ids) id ≡ true
is_id-first id ids = ground (arith, ==_iff id id)

-- What waits after a batch of `n` is all but the first `n`.
pub pending-mark :
    (n now : ℕ) (rs : List LedgerRow)
    → Distinct rs
    → pending (mark (ids_of (take n (pending rs))) now rs) ≡ drop n (pending rs)
unfolding pending mark
pending-mark zero now rs d = ap pending (mark-none now rs)
pending-mark (suc n) now [] d = refl
pending-mark (suc n) now (r ∷ rs) (other, d) = elim (Bool-cases (is_pending r)) [
  | inl waits ↦
      subst (λ x. pending (mark (ids_of (take (suc n) x)) now (r ∷ rs)) ≡ drop (suc n) x)
        (sym (pending-waiting r rs waits))
        (pending-marked (r.id ∷ ids_of (take n (pending rs))) now r rs
            (rw (is_id-first r.id (ids_of (take n (pending rs)))) refl)
          ∙ ap pending (mark-other r.id (ids_of (take n (pending rs))) now rs other)
          ∙ pending-mark n now rs d)
  | inr done ↦
      subst (λ x. pending (mark (ids_of (take (suc n) x)) now (r ∷ rs)) ≡ drop (suc n) x)
        (sym (pending-done r rs done))
        (pending-marked (ids_of (take (suc n) (pending rs))) now r rs
            (done_marked (ids_of (take (suc n) (pending rs))) r done)
          ∙ pending-mark (suc n) now rs d)
]

marked_id :
    (ids : List ℕ) (now : ℕ) (r : LedgerRow)
    → (if is_id ids r.id && is_pending r then record r { aggregated_at = some now } else r).id
      ≡ r.id
marked_id ids now r = ground arith

All-mark :
    (id : ℕ) (ids : List ℕ) (now : ℕ) (rs : List LedgerRow)
    → All (λ r. id ≢ r.id) rs
    → All (λ r. id ≢ r.id) (mark ids now rs)
unfolding mark
All-mark id ids now [] h = h
All-mark id ids now (r ∷ rs) (d, h) = ((λ e. d (e ∙ marked_id ids now r)), All-mark id ids now rs h)

All-prune :
    (id cutoff : ℕ) (rs : List LedgerRow)
    → All (λ r. id ≢ r.id) rs
    → All (λ r. id ≢ r.id) (prune cutoff rs)
unfolding prune
All-prune id cutoff [] h = h
All-prune id cutoff (r ∷ rs) (d, h) =
    elim (is_old cutoff r)
      as (λ b. All (λ r. id ≢ r.id) (if not b then r ∷ prune cutoff rs else prune cutoff rs)) [
        | true ↦ All-prune id cutoff rs h
        | false ↦ (d, All-prune id cutoff rs h)
      ]

pub Distinct-mark :
    (ids : List ℕ) (now : ℕ) (rs : List LedgerRow) → Distinct rs → Distinct (mark ids now rs)
unfolding mark
Distinct-mark ids now [] d = d
Distinct-mark ids now (r ∷ rs) (other, d) =
    elim (is_id ids r.id && is_pending r)
      as (λ b.
        Distinct ((if b then record r { aggregated_at = some now } else r) ∷ mark ids now rs)) [
          | true ↦ (All-mark r.id ids now rs other, Distinct-mark ids now rs d)
          | false ↦ (All-mark r.id ids now rs other, Distinct-mark ids now rs d)
        ]

pub Distinct-prune : (cutoff : ℕ) (rs : List LedgerRow) → Distinct rs → Distinct (prune cutoff rs)
unfolding prune
Distinct-prune cutoff [] d = d
Distinct-prune cutoff (r ∷ rs) (other, d) =
    elim (is_old cutoff r)
      as (λ b. Distinct (if not b then r ∷ prune cutoff rs else prune cutoff rs)) [
        | true ↦ Distinct-prune cutoff rs d
        | false ↦ (All-prune r.id cutoff rs other, Distinct-prune cutoff rs d)
      ]
