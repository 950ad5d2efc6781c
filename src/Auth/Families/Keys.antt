-- ===== src/Auth/Families/Keys.antt =====
-- The ids and families of the table's rows, which no update changes.
use over_vpn.Base.{
  ℕ, Bool, List, [], ◌∷◌, ◌++◌, map, Text, All, All-append, ◌≡◌, ◌≢◌, refl, arith, ap, sym,
}
use over_vpn.Auth.{RefreshToken, RevocationReason, revoke}
use over_vpn.Auth.Refresh.{claim, expire, set_replaced}
use over_vpn.Auth.Families.Counts.{Agree}

abbrev pub keys : List RefreshToken → List (Text × Text)
keys = map (λ r. (r.id, r.family_id))

pub keys-append : (xs ys : List RefreshToken) → keys (xs ++ ys) ≡ keys xs ++ keys ys
keys-append [] ys = refl
keys-append (x ∷ xs) ys = ap (λ ks. (x.id, x.family_id) ∷ ks) (keys-append xs ys)

pub keys-revoke :
    (p : RefreshToken → Bool) (now : ℕ) (reason : RevocationReason) (rs : List RefreshToken)
    → keys (revoke p now reason rs) ≡ keys rs
unfolding revoke
keys-revoke p now reason [] = refl
keys-revoke p now reason (r ∷ rs) = ground (arith, keys-revoke p now reason rs)

pub keys-claim : (id : Text) (now : ℕ) (rs : List RefreshToken) → keys (claim id now rs) ≡ keys rs
unfolding claim
keys-claim id now [] = refl
keys-claim id now (r ∷ rs) = ground (arith, keys-claim id now rs)

pub keys-expire : (id : Text) (now : ℕ) (rs : List RefreshToken) → keys (expire id now rs) ≡ keys rs
unfolding expire
keys-expire id now [] = refl
keys-expire id now (r ∷ rs) = ground (arith, keys-expire id now rs)

pub keys-set_replaced :
    (id replacement : Text) (rs : List RefreshToken)
    → keys (set_replaced id replacement rs) ≡ keys rs
unfolding set_replaced
keys-set_replaced id replacement [] = refl
keys-set_replaced id replacement (r ∷ rs) = ground (arith, keys-set_replaced id replacement rs)

-- Where an id stands, its family does.
abbrev pub Knows : Text → Text → List (Text × Text) → Type 0
Knows id family = All (λ (i, f). id ≡ i → family ≡ f)

abbrev pub AllKnow : List (Text × Text) → List (Text × Text) → Type 0
AllKnow ks table = All (λ (i, f). Knows i f table) ks

pub Agree-of_Knows :
    (id family : Text) (rs : List RefreshToken)
    → Knows id family (keys rs)
    → All (Agree id family) rs
Agree-of_Knows id family [] h = h
Agree-of_Knows id family (r ∷ rs) (k, h) = (k, Agree-of_Knows id family rs h)

pub Knows-fresh :
    (id family : Text) (rs : List RefreshToken)
    → All (λ r. id ≢ r.id) rs
    → Knows id family (keys rs)
Knows-fresh id family [] h = h
Knows-fresh id family (r ∷ rs) (d, h) = ((λ e. absurd (d e)), Knows-fresh id family rs h)

-- A new key, for those that know the table.
pub AllKnow-snoc :
    (cs : List RefreshToken) (table : List (Text × Text)) (id family : Text)
    → AllKnow (keys cs) table
    → All (λ r. id ≢ r.id) cs
    → AllKnow (keys cs) (table ++ (id, family) ∷ [])
AllKnow-snoc [] table id family h d = h
AllKnow-snoc (c ∷ cs) table id family (k, h) (d, ds) = (
  All-append _ table ((id, family) ∷ []) k ((λ e. absurd (d (sym e))), tt),
  AllKnow-snoc cs table id family h ds,
)

pub Knows-self :
    (rs : List RefreshToken) (id family : Text)
    → AllKnow (keys rs) (keys rs)
    → All (λ r. id ≢ r.id) rs
    → AllKnow (keys rs ++ (id, family) ∷ []) (keys rs ++ (id, family) ∷ [])
Knows-self rs id family h d =
    All-append _ (keys rs) ((id, family) ∷ []) (AllKnow-snoc rs (keys rs) id family h d) (
      All-append _ (keys rs) ((id, family) ∷ []) (Knows-fresh id family rs d) ((λ e. refl), tt),
      tt,
    )
