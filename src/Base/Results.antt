-- ===== src/Base/Results.antt =====
-- Calls that return a value or throw.
use mathlib.Core.Path.{◌≡◌, refl, subst}

pub data Result {ℓ κ} (Error : Type ℓ) (Value : Type κ) : Type (ℓ ⊔ κ) where
  throw : Error → Result Error Value
  ok : Value → Result Error Value

module _ {ℓ κ μ} {Error : Type ℓ} {V : Type κ} {W : Type μ} where
  infixl 5 ◌>>=◌
  abbrev pub ◌>>=◌ : Result Error V → (V → Result Error W) → Result Error W
  throw thrown >>= next = throw thrown
  ok value >>= next = next value

  -- A chain returned only if its first call did.
  pub bind-ok :
      (first : Result Error V) (next : V → Result Error W) {w : W}
      → (first >>= next) ≡ ok w
      → (v : V) × (first ≡ ok v) × (next v ≡ ok w)
  bind-ok (throw thrown) next returned = cc
  bind-ok (ok value) next returned = (value, refl, returned)

-- What holds of a value, if the call returns.
abbrev pub Ensures : {Error Value : Type 0} → (Value → Type 0) → Result Error Value → Type 0
Ensures P (throw thrown) = Unit
Ensures P (ok value) = P value

pub Ensures-bind :
    {Error V W : Type 0} (Q : V → Type 0) (P : W → Type 0) (first : Result Error V)
    (next : V → Result Error W)
    → Ensures Q first
    → ((v : V) → Q v → Ensures P (next v))
    → Ensures P (first >>= next)
Ensures-bind Q P (throw thrown) next q h = tt
Ensures-bind Q P (ok value) next q h = h value q

-- Where the first result does not matter.
pub Ensures-after :
    {Error V W : Type 0} (P : W → Type 0) (first : Result Error V) (next : V → Result Error W)
    → ((v : V) → Ensures P (next v))
    → Ensures P (first >>= next)
Ensures-after P (throw thrown) next h = tt
Ensures-after P (ok value) next h = h value

pub Ensures-ok :
    {Error V : Type 0} (P : V → Type 0) (result : Result Error V) {v : V}
    → Ensures P result
    → result ≡ ok v
    → P v
Ensures-ok P result h returned = subst (Ensures P) returned h
