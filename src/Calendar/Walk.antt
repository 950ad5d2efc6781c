-- ===== src/Calendar/Walk.antt =====
-- Consecutive periods: their starts, and the period in which a position lies.
use native.Mathlib.Decide.{dec_le, dec_lt}
use over_vpn.Base.{
  ℕ, zero, suc, ◌+◌, ◌-◌, ◌≤◌, ◌<◌, ◌≡◌, refl, if◌then◌else◌, ltb, arith, Bool-cases, inl, inr,
  ltb→lt, ap, ◌↔◌,
}

-- The start of period `n`.
unfoldable pub before : (ℕ → ℕ) → ℕ → ℕ
before f zero = 0
before f (suc n) = before f n + f n

-- The period of a position `rest` behind the start of period `n`, and the position in it.
unfoldable pub walk : (ℕ → ℕ) → ℕ → ℕ → ℕ → ℕ × ℕ
walk f zero n rest = (n, rest)
walk f (suc fuel) n rest =
    let later = walk f fuel (suc n) (rest - f n) in if ltb rest (f n) then (n, rest) else later

module _ (f : ℕ → ℕ) where
  pub before_mono : (m n : ℕ) → m ≤ n → before f m ≤ before f n
  unfolding before
  before_mono m zero h = let e : m ≡ 0 = omega arith in rw e (omega arith)
  before_mono m (suc n) h = elim (dec_le m n) [
    | yes p ↦ omega (arith, before_mono m n p)
    | no q ↦ let e : m ≡ suc n = omega arith in rw e (omega arith)
  ]

  -- A position determines its period.
  pub period_unique :
      (m n r s : ℕ) → before f m + r ≡ before f n + s → r < f m → s < f n → (m ≡ n) × (r ≡ s)
  unfolding before
  period_unique m n r s e hr hs = elim (dec_lt m n) [
    | yes p ↦ absurd (omega (arith, before_mono (suc m) n p))
    | no q ↦ elim (dec_lt n m) [
      | yes p ↦ absurd (omega (arith, before_mono (suc n) m p))
      | no q' ↦ let same : m ≡ n = omega arith in (same, omega (arith, ap (before f) same))
    ]
  ]

  -- With fuel that reaches the position, the walk ends in the period that holds it.
  pub walk_lem :
      (fuel n rest end : ℕ)
      → n + fuel ≡ end
      → before f n + rest < before f end
      → let (m, r) = walk f fuel n rest in
        (before f m + r ≡ before f n + rest) × (r < f m) × (m < end)
  unfolding walk before
  walk_lem zero n rest end e h =
      let same : n ≡ end = omega arith in absurd (omega (arith, ap (before f) same))
  walk_lem (suc fuel) n rest end e h = elim (Bool-cases (ltb rest (f n))) [
    | inl here ↦ rw here (refl, ltb→lt _ _ here, omega arith)
    | inr later ↦
        let enough : f n ≤ rest = ground arith in
        let (same, inside, below) =
          walk_lem fuel (suc n) (rest - f n) end (omega arith) (omega arith) in
        rw later (omega (arith, same), inside, below)
  ]

  -- The walk finds a given period from its start and the position in it.
  pub walk-before :
      (fuel m r end : ℕ) → fuel ≡ end → m < end → r < f m → walk f fuel 0 (before f m + r) ≡ (m, r)
  unfolding before
  walk-before fuel m r end e below inside =
      let (same, found, _) =
        walk_lem fuel 0 (before f m + r) end (omega arith)
          (omega (arith, before_mono (suc m) end below)) in
      let (p, q) = period_unique _ m _ r (omega (arith, same)) found inside in λ i. (p i, q i)

  -- Of two positions, the later one lies before the end of the earlier one's period exactly when
  -- both lie in it.
  pub before_end_iff :
      (m n r s : ℕ)
      → before f m + r ≤ before f n + s
      → r < f m
      → s < f n
      → (before f n + s < before f m + f m) ↔ (m ≡ n)
  unfolding before
  before_end_iff m n r s ordered hr hs = (
    λ soon. elim (dec_lt m n) [
      | yes p ↦ absurd (omega (arith, before_mono (suc m) n p))
      | no q ↦ elim (dec_lt n m) [
        | yes p ↦ absurd (omega (arith, before_mono (suc n) m p))
        | no q' ↦ omega arith
      ]
    ],
    λ same. omega (arith, ap (before f) same, ap f same),
  )
