-- ===== src/Auth/Families/Alone.antt =====
-- The invariant of the refresh tokens, and its preservation.
use mathlib.Core.Path.{subst}
use over_vpn.Base.{
  ℕ, ◌≤◌, Bool, List, [], ◌∷◌, ◌++◌, some, Text, text_eq, text_eq_iff, All, if◌then◌else◌, ◌≡◌, ◌≢◌,
  inl, inr, refl, arith, ap, ◌∙◌, sym, Bool-cases,
}
use over_vpn.Auth.{RefreshToken, RevocationReason, revoke, rotated}
use over_vpn.Auth.Refresh.{claim, can_claim, expire, set_replaced}
use over_vpn.Auth.Families.{Member}
use over_vpn.Auth.Families.Counts.{
  live_in, live_in-append, live_in-revoke_le, live_in-expire_le, live_in-set_replaced,
  live_in-claim_le,
}
use over_vpn.Auth.Families.Keys.{
  keys, keys-append, keys-revoke, keys-claim, keys-expire, keys-set_replaced, Knows, AllKnow,
  AllKnow-snoc, Knows-self,
}

-- The table `ts` with the readings `cs`.
pub record Inv (ts cs : List RefreshToken) : Type 0 where
  pub alone : (f : Text) → live_in f ts ≤ 1
  pub rows : AllKnow (keys ts) (keys ts)
  pub readings : AllKnow (keys cs) (keys ts)

-- An update that keeps the keys and revokes at most.
pub record Tame (ts ts' : List RefreshToken) : Type 0 where
  pub same_keys : keys ts' ≡ keys ts
  pub fewer : (f : Text) → live_in f ts' ≤ live_in f ts

pub Inv-Tame : (ts ts' cs : List RefreshToken) → Tame ts ts' → Inv ts cs → Inv ts' cs
Inv-Tame ts ts' cs t inv = record {
  alone = λ f. omega (arith, t.fewer f, inv.alone f);
  rows = subst (λ ks. AllKnow ks ks) (sym t.same_keys) inv.rows;
  readings = subst (AllKnow (keys cs)) (sym t.same_keys) inv.readings;
}

pub Tame-revoke :
    (p : RefreshToken → Bool) (now : ℕ) (reason : RevocationReason) (ts : List RefreshToken)
    → Tame ts (revoke p now reason ts)
Tame-revoke p now reason ts = record {
  same_keys = keys-revoke p now reason ts;
  fewer = λ f. live_in-revoke_le f p now reason ts;
}

pub Tame-same : (ts : List RefreshToken) → Tame ts ts
Tame-same ts = record { same_keys = refl; fewer = λ f. omega arith }

-- A new row in a family that has no live token.
pub Inv-new :
    (ts cs : List RefreshToken) (n : RefreshToken)
    → Inv ts cs
    → All (λ r. n.id ≢ r.id) ts
    → All (λ r. n.id ≢ r.id) cs
    → live_in n.family_id ts ≡ 0
    → Inv (ts ++ n ∷ []) cs
unfolding live_in
Inv-new ts cs n inv d e empty =
    let ks = keys-append ts (n ∷ []) in
    record {
      alone = λ f. elim (Bool-cases (text_eq n.family_id f)) [
        | inl same ↦
            let g = (text_eq_iff n.family_id f).0 same in
            ground (arith, live_in-append f ts (n ∷ []), ap (λ x. live_in x ts) g, empty)
        | inr other ↦ ground (arith, live_in-append f ts (n ∷ []), inv.alone f)
      ];
      rows = subst (λ k. AllKnow k k) (sym ks) (Knows-self ts n.id n.family_id inv.rows d);
      readings =
          subst (AllKnow (keys cs)) (sym ks)
            (AllKnow-snoc cs (keys ts) n.id n.family_id inv.readings e);
    }

pub Tame-set_replaced :
    (id replacement : Text) (ts : List RefreshToken) → Tame ts (set_replaced id replacement ts)
Tame-set_replaced id replacement ts = record {
  same_keys = keys-set_replaced id replacement ts;
  fewer = λ f. omega (arith, live_in-set_replaced f id replacement ts);
}

pub Tame-claim : (id : Text) (now : ℕ) (ts : List RefreshToken) → Tame ts (claim id now ts)
Tame-claim id now ts = record {
  same_keys = keys-claim id now ts;
  fewer = λ f. live_in-claim_le f id now ts;
}

pub Tame-expire : (id : Text) (now : ℕ) (ts : List RefreshToken) → Tame ts (expire id now ts)
Tame-expire id now ts = record {
  same_keys = keys-expire id now ts;
  fewer = λ f. live_in-expire_le f id now ts;
}

abbrev pub HasFresh : Text → List RefreshToken → Type 0
HasFresh id rs = All (λ r. id ≢ r.id) rs

claimed_id :
    (other : Text) (now : ℕ) (r : RefreshToken)
    → (if can_claim other now r
        then record r { revoked_at = some now; revocation_reason = some rotated }
        else r).id
      ≡ r.id
claimed_id other now r = ground arith

-- A claim does not change what is fresh.
pub HasFresh-claim :
    (id other : Text) (now : ℕ) (ts : List RefreshToken)
    → HasFresh id ts
    → HasFresh id (claim other now ts)
unfolding claim
HasFresh-claim id other now [] h = h
HasFresh-claim id other now (r ∷ rs) (d, h) =
    ((λ e. d (e ∙ claimed_id other now r)), HasFresh-claim id other now rs h)

pub Knows-reading :
    (c : RefreshToken) (cs : List RefreshToken) (table : List (Text × Text))
    → Member c cs
    → AllKnow (keys cs) table
    → Knows c.id c.family_id table
Knows-reading c [] table m h = elim m [ ]
Knows-reading c (d ∷ cs) table (inl e) (k, h) = subst (λ r. Knows r.id r.family_id table) (sym e) k
Knows-reading c (d ∷ cs) table (inr m) (k, h) = Knows-reading c cs table m h
