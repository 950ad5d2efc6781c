-- ===== src/Accounting/Decimal.antt =====
-- Decimal texts: printing a number and reading it back.
use over_vpn.Base.{
  ℕ, zero, suc, ◌+◌, ◌-◌, ◌*◌, ◌/◌, ◌%◌, ◌≤◌, ◌<◌, ◌≡◌, refl, [], ◌∷◌, ◌++◌, Text, arith, ltb,
  Bool-cases, inl, inr,
}
use over_vpn.Accounting.{value_from, digits_from, digits}

pub value_from-append :
    (acc : ℕ) (s t : Text) → value_from acc (s ++ t) ≡ value_from (value_from acc s) t
value_from-append acc [] t = refl
value_from-append acc (c ∷ s) t = value_from-append (acc * 10 + (c - b'0')) s t

-- More fuel than the number changes nothing.
digits_from-fuel : (f g n : ℕ) → n < f → n < g → digits_from f n ≡ digits_from g n
unfolding digits_from
digits_from-fuel zero g n h k = absurd (omega arith)
digits_from-fuel (suc f) zero n h k = absurd (omega arith)
digits_from-fuel (suc f) (suc g) n h k = elim (Bool-cases (ltb n 10)) [
  | inl small ↦ rw small
  | inr large ↦ rw large (rw (digits_from-fuel f g (n / 10) (ground arith) (ground arith)))
]

pub digits_small : (n : ℕ) → n < 10 → digits n ≡ (b'0' + n) ∷ []
unfolding digits
digits_small n h = ground arith

pub digits_large : (n : ℕ) → 10 ≤ n → digits n ≡ digits (n / 10) ++ (b'0' + n % 10) ∷ []
unfolding digits
digits_large n h = ground (arith, digits_from-fuel n (suc (n / 10)) (n / 10))
