-- ===== src/Auth/Families/Safe.antt =====
-- Every transaction preserves the invariant of the refresh tokens.
use mathlib.Core.Path.{subst}
use over_vpn.Base.{
  ℕ, ◌≤◌, Bool, true, false, not, ◌||◌, List, [], filter, length, Option, none, some, is_some, Text,
  text_eq, if◌then◌else◌, ◌==◌, ==_iff, leb, ◌≡◌, refl, arith, sym,
}
use over_vpn.Auth.{
  Admin, Store, Platform, Fresh, RefreshToken, RevocationReason, revoke, new_token, in_family,
  of_admin, filled, logout,
}
use over_vpn.Auth.Login.{open_session, log_out, without_session, logged_out, token_with}
use over_vpn.Auth.Refresh.{refresh_current, rotate, claim, can_claim}
use over_vpn.Auth.Totp.{without_factor}
use over_vpn.Auth.Families.{
  System, Step, log_in, read, rotate_read, end_session, end_all, Reachable, start, next, Member,
}
use over_vpn.Auth.Families.Counts.{live_in, live_in-claim, live_in-fresh}
use over_vpn.Auth.Families.Keys.{keys, Agree-of_Knows}
use over_vpn.Auth.Families.Alone.{
  Inv, Tame, Inv-Tame, Inv-new, Tame-revoke, Tame-same, Tame-set_replaced, Tame-claim, Tame-expire,
  HasFresh, HasFresh-claim, Knows-reading,
}

abbrev SystemInv : System → Type 0
SystemInv s = Inv s.store.tokens s.readings

Inv-if :
    {A : Type 0} (b : Bool) (x y : A × Store) (cs : List RefreshToken)
    → (b ≡ true → Inv x.1.tokens cs)
    → (b ≡ false → Inv y.1.tokens cs)
    → Inv (if b then x else y).1.tokens cs
Inv-if true x y cs f g = f refl
Inv-if false x y cs f g = g refl

true_of_not : (b : Bool) → not b ≡ false → b ≡ true
true_of_not true e = refl
true_of_not false e = sym e

module _ (p : Platform) where
  -- A claim of one row empties its family.
  emptied :
      (c : RefreshToken) (now : ℕ) (ts cs : List RefreshToken)
      → Inv ts cs
      → Member c cs
      → length (filter (can_claim c.id now) ts) ≡ 1
      → live_in c.family_id (claim c.id now ts) ≡ 0
  emptied c now ts cs inv m one = omega (
    arith,
    live_in-claim c.id c.family_id now ts
        (Agree-of_Knows c.id c.family_id ts (Knows-reading c cs (keys ts) m inv.readings)),
    inv.alone c.family_id,
    one,
  )

  Inv-rotate :
      (fresh : Fresh) (now : ℕ) (c : RefreshToken) (a : Admin) (s : Store) (cs : List RefreshToken)
      → Inv s.tokens cs
      → Member c cs
      → HasFresh fresh.token_id s.tokens
      → HasFresh fresh.token_id cs
      → Inv ((rotate p fresh now c a s).1.tokens) cs
  unfolding rotate
  Inv-rotate fresh now c a s cs inv m ft fc =
      let claimed =
        Inv-Tame s.tokens (claim c.id now s.tokens) cs (Tame-claim c.id now s.tokens) inv in
      Inv-if (not (length (filter (can_claim c.id now) s.tokens) == 1)) _ _ cs
        (λ many. Inv-Tame _ _ cs (Tame-revoke _ now RevocationReason.reuse_detected _) claimed)
        (λ one. Inv-Tame _ _ cs (Tame-set_replaced c.id fresh.token_id _) (
          Inv-new _ cs (new_token p fresh c.admin_user_id c.family_id now) claimed
            (HasFresh-claim fresh.token_id c.id now s.tokens ft) fc
            (emptied c now s.tokens cs inv m
              ((==_iff (length (filter (can_claim c.id now) s.tokens)) 1).0 (true_of_not _ one)))))

  Inv-refresh_current :
      (fresh : Fresh) (now : ℕ) (c : RefreshToken) (a : Admin) (s : Store) (cs : List RefreshToken)
      → Inv s.tokens cs
      → Member c cs
      → HasFresh fresh.token_id s.tokens
      → HasFresh fresh.token_id cs
      → Inv ((refresh_current p fresh now c a s).1.tokens) cs
  unfolding refresh_current
  Inv-refresh_current fresh now c a s cs inv m ft fc =
      Inv-if (is_some c.revoked_at || is_some c.replaced_by) _ _ cs
        (λ gone. Inv-Tame _ _ cs (Tame-revoke _ now RevocationReason.reuse_detected _) inv)
        (λ there.
          Inv-if (leb c.expires_at now) _ _ cs
            (λ late. Inv-Tame _ _ cs (Tame-expire c.id now _) inv)
            (λ timely.
              Inv-if (not a.active) _ _ cs
                (λ off. Inv-Tame _ _ cs (Tame-revoke _ now RevocationReason.account_inactive _) inv)
                (λ on. Inv-rotate fresh now c a s cs inv m ft fc)))

  Tame-logged_out :
      (id : Text) (now : ℕ) (r : Option RefreshToken) (ts : List RefreshToken)
      → Tame ts (logged_out p id now r ts)
  Tame-logged_out id now none ts = Tame-same ts
  Tame-logged_out id now (some r) ts =
      elim (text_eq r.admin_user_id id)
        as (λ b. Tame ts (if b then revoke (in_family r.family_id) now logout ts else ts)) [
          | true ↦ Tame-revoke _ now logout ts
          | false ↦ Tame-same ts
        ]

  Tame-without_session :
      (id : Text) (now : ℕ) (token : Option Text) (s : Store)
      → Tame s.tokens (without_session p id now token s)
  Tame-without_session id now none s = Tame-revoke _ now logout s.tokens
  Tame-without_session id now (some t) s = Tame-logged_out id now (token_with p t s) s.tokens

  Inv-step : (s t : System) → Step p s t → SystemInv s → SystemInv t
  unfolding open_session log_out without_factor
  Inv-step _ _ (log_in s input fresh now a (ft, fc) ff) inv =
      Inv-new s.store.tokens s.readings (new_token p fresh a.id fresh.family_id now) inv ft fc
        (live_in-fresh fresh.family_id s.store.tokens ff)
  Inv-step _ _ (read s r m) inv = record {
    alone = inv.alone;
    rows = inv.rows;
    readings = (Knows-reading r s.store.tokens (keys s.store.tokens) m inv.rows, inv.readings);
  }
  Inv-step _ _ (rotate_read s fresh now c a (ft, fc) m) inv =
      Inv-refresh_current fresh now c a s.store s.readings inv m ft fc
  Inv-step _ _ (end_session s id token now) inv =
      Inv-Tame s.store.tokens _ s.readings (Tame-without_session id now (filled token) s.store) inv
  Inv-step _ _ (end_all s a now) inv =
      Inv-Tame s.store.tokens _ s.readings
        (Tame-revoke (of_admin a.id) now RevocationReason.totp_disabled s.store.tokens) inv

  Inv-empty : (s : Store) → s.tokens ≡ [] → Inv s.tokens []
  unfolding live_in
  Inv-empty s e =
      subst (λ ts. Inv ts []) (sym e)
        (record { alone = λ f. omega arith; rows = tt; readings = tt })

  Inv-reachable : (s : System) → Reachable p s → SystemInv s
  Inv-reachable _ (start s e) = Inv-empty s e
  Inv-reachable _ (next s t r step) = Inv-step s t step (Inv-reachable s r)

  -- In every state that logins, reads, rotations of tokens read before, logouts and the removal of
  -- second factors reach from an empty table, in any order and with fresh ids and families, a
  -- family of refresh tokens has at most one token that is not revoked.
  pub one_live_token : (s : System) (f : Text) → Reachable p s → live_in f s.store.tokens ≤ 1
  one_live_token s f r = (Inv-reachable s r).alone f
