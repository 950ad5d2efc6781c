-- ===== src/Auth/Families/Counts.antt =====
-- The live tokens of a family, counted, under the updates of the table.
use over_vpn.Base.{
  ℕ, ◌+◌, ◌≤◌, Bool, ◌&&◌, List, [], ◌∷◌, ◌++◌, filter, length, Text, text_eq, text_eq_iff,
  if◌then◌else◌, All, ◌≡◌, ◌≢◌, refl, arith, sym, Bool-cases, inl, inr,
}
use over_vpn.Auth.{RefreshToken, RevocationReason, is_live, in_family, revoke}
use over_vpn.Auth.Refresh.{can_claim, claim, expire, set_replaced}

abbrev one_if : Bool → ℕ
one_if b = if b then 1 else 0

-- The tokens of a family that are not revoked.
unfoldable pub live_in : Text → List RefreshToken → ℕ
live_in family [] = 0
live_in family (r ∷ rest) = one_if (in_family family r && is_live r) + live_in family rest

pub live_in-append :
    (f : Text) (xs ys : List RefreshToken) → live_in f (xs ++ ys) ≡ live_in f xs + live_in f ys
unfolding live_in
live_in-append f [] ys = omega arith
live_in-append f (x ∷ xs) ys = omega (arith, live_in-append f xs ys)

pub live_in-revoke_le :
    (f : Text) (p : RefreshToken → Bool) (now : ℕ) (reason : RevocationReason)
    (rs : List RefreshToken)
    → live_in f (revoke p now reason rs) ≤ live_in f rs
unfolding live_in revoke
live_in-revoke_le f p now reason [] = omega arith
live_in-revoke_le f p now reason (r ∷ rs) = ground (arith, live_in-revoke_le f p now reason rs)

pub live_in-expire_le :
    (f id : Text) (now : ℕ) (rs : List RefreshToken) → live_in f (expire id now rs) ≤ live_in f rs
unfolding live_in expire
live_in-expire_le f id now [] = omega arith
live_in-expire_le f id now (r ∷ rs) = ground (arith, live_in-expire_le f id now rs)

pub live_in-set_replaced :
    (f id replacement : Text) (rs : List RefreshToken)
    → live_in f (set_replaced id replacement rs) ≡ live_in f rs
unfolding live_in set_replaced
live_in-set_replaced f id replacement [] = refl
live_in-set_replaced f id replacement (r ∷ rs) =
    ground (arith, live_in-set_replaced f id replacement rs)

-- Rows with the id of a token are of its family.
abbrev pub Agree : Text → Text → RefreshToken → Type 0
Agree id family r = id ≡ r.id → family ≡ r.family_id

-- A claim takes the rows that it matches from their family.
pub live_in-claim :
    (id family : Text) (now : ℕ) (rs : List RefreshToken)
    → All (Agree id family) rs
    → live_in family (claim id now rs) + length (filter (can_claim id now) rs) ≡ live_in family rs
unfolding live_in claim
live_in-claim id family now [] h = omega arith
live_in-claim id family now (r ∷ rs) (agree, h) =
    let rest = live_in-claim id family now rs h in
    elim (Bool-cases (text_eq r.id id)) [
      | inl same ↦
          let of_family =
            (text_eq_iff r.family_id family).1 (sym (agree (sym ((text_eq_iff r.id id).0 same)))) in
          ground (arith, rest)
      | inr other ↦ ground (arith, rest)
    ]

pub live_in-claim_le :
    (f id : Text) (now : ℕ) (rs : List RefreshToken) → live_in f (claim id now rs) ≤ live_in f rs
unfolding live_in claim
live_in-claim_le f id now [] = omega arith
live_in-claim_le f id now (r ∷ rs) = ground (arith, live_in-claim_le f id now rs)

-- A family without a row has no live token.
pub live_in-fresh :
    (f : Text) (rs : List RefreshToken) → All (λ r. f ≢ r.family_id) rs → live_in f rs ≡ 0
unfolding live_in
live_in-fresh f [] h = refl
live_in-fresh f (r ∷ rs) (d, h) = ground (arith, live_in-fresh f rs h, text_eq_iff r.family_id f)
