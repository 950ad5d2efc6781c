-- ===== src/Users/Outcomes.antt =====
-- What holds of the result of a transaction, if it returns.
use over_vpn.Base.{
  Ensures, ℕ, zero, suc, ◌==◌, Bool, not, ◌&&◌, Result, ok, throw, Bool-cases, inl, inr,
}
use over_vpn.Users.{Failure, after_attempt, retry, is_collision}
use over_vpn.Users.Save.{mapped}

pub Ensures-mapped :
    {A : Type 0} (P : A → Type 0) (r : Result Failure A) → Ensures P r → Ensures P (mapped r)
Ensures-mapped P (throw e) h = tt
Ensures-mapped P (ok a) h = h

Ensures-after_attempt :
    {A : Type 0} (P : A → Type 0) (r : Result Failure A) (more : Bool) (rest : Result Failure A)
    → Ensures P r
    → Ensures P rest
    → Ensures P (after_attempt r more rest)
Ensures-after_attempt P (ok a) more rest h k = h
Ensures-after_attempt P (throw e) more rest h k = elim (Bool-cases (is_collision e && more)) [
  | inl again ↦ simp again k
  | inr last ↦ simp last tt
]

pub Ensures-retry :
    {A : Type 0} (P : A → Type 0) (left n : ℕ) (attempt : ℕ → Result Failure A)
    → ((n : ℕ) → Ensures P (attempt n))
    → Ensures P (retry left n attempt)
unfolding retry
Ensures-retry P zero n attempt h = tt
Ensures-retry P (suc left) n attempt h =
    Ensures-after_attempt P (attempt n) (not (left == 0)) _ (h n)
      (Ensures-retry P left (suc n) attempt h)
