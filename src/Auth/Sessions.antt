-- ===== src/Auth/Sessions.antt =====
-- What a reused token does to its family, and what the removal of the second factor leaves.
use mathlib.Core.Path.{subst}
use over_vpn.Base.{
  ℕ, Bool, true, false, not, ◌&&◌, ◌||◌, List, [], ◌∷◌, Option, none, some, is_some, Text, text_eq,
  text_eq_iff, All, if◌then◌else◌, Result, ok, throw, ◌≡◌, inl, inr, refl, arith, ◌∙◌, sym,
  Bool-cases,
}
use over_vpn.Auth.{
  Admin, Store, Platform, Fresh, RefreshToken, RevocationReason, AuthError, refresh_reused, revoke,
  in_family, of_admin, is_live, filled, require_admin, admin_totp_disable, admin_refresh, logged,
  find, admin_by_id, FailureReason,
}
use over_vpn.Auth.Refresh.{
  reused, refresh, refresh_read, refresh_current, read_token, answer, revoke_family,
}
use over_vpn.Auth.Totp.{disable_totp, disable_as, disable_factor, with_secret, without_factor, fail}
use over_vpn.Auth.Families.Counts.{live_in}

live_in-revoke_own :
    (f : Text) (now : ℕ) (reason : RevocationReason) (rs : List RefreshToken)
    → live_in f (revoke (in_family f) now reason rs) ≡ 0
unfolding live_in revoke
live_in-revoke_own f now reason [] = refl
live_in-revoke_own f now reason (r ∷ rs) = ground (arith, live_in-revoke_own f now reason rs)

-- No token of an administrator is live.
abbrev pub SignedOut : Text → List RefreshToken → Type 0
SignedOut id rs = All (λ r. of_admin id r && is_live r ≡ false) rs

SignedOut-revoke :
    (id : Text) (now : ℕ) (reason : RevocationReason) (rs : List RefreshToken)
    → SignedOut id (revoke (of_admin id) now reason rs)
unfolding revoke
SignedOut-revoke id now reason [] = tt
SignedOut-revoke id now reason (r ∷ rs) = (ground arith, SignedOut-revoke id now reason rs)

id-of_some : (b a : Admin) → some b ≡ some a → a.id ≡ b.id
id-of_some b a e = cc

found_id :
    (id : Text) (admins : List Admin) (a : Admin)
    → find (λ b. text_eq b.id id) admins ≡ some a
    → a.id ≡ id
found_id id [] a e = cc
found_id id (b ∷ bs) a e = elim (Bool-cases (text_eq b.id id)) [
  | inl same ↦
      let there : some b ≡ some a = sym (rw same refl) ∙ e in
      id-of_some b a there ∙ (text_eq_iff b.id id).0 same
  | inr other ↦ found_id id bs a (sym (rw other refl) ∙ e)
]

found_active :
    (o : Option Admin) (a : Admin)
    → elim o [
      | none ↦ throw AuthError.account_inactive
      | some b ↦ if b.active then ok b else throw AuthError.account_inactive
    ]
      ≡ ok a
    → o ≡ some a
found_active none a e = cc
found_active (some b) a e = elim (Bool-cases b.active) [
  | inl on ↦ ground arith
  | inr off ↦ ground arith
]

id-of_require_admin : (id : Text) (s : Store) (a : Admin) → require_admin id s ≡ ok a → a.id ≡ id
id-of_require_admin id s a e = found_id id s.admins a (found_active (admin_by_id id s) a e)

module _ (p : Platform) where
  reused_current :
      (fresh : Fresh) (now : ℕ) (r : RefreshToken) (a : Admin) (s : Store)
      → is_some r.revoked_at || is_some r.replaced_by ≡ true
      → refresh_current p fresh now r a s ≡ (
        reused,
        logged
            (some r.admin_user_id)
            admin_refresh
            (some FailureReason.reuse_detected)
            (revoke_family p r.family_id now RevocationReason.reuse_detected s),
      )
  unfolding refresh_current
  reused_current fresh now r a s gone = rw gone refl

  reused_read :
      (fresh : Fresh) (wanted : Bool) (now : ℕ) (r : RefreshToken) (a : Admin) (s : Store)
      → is_some r.revoked_at || is_some r.replaced_by ≡ true
      → ((answer p fresh wanted (refresh_current p fresh now r a s)).0 ≡ throw refresh_reused)
        × (live_in r.family_id (answer p fresh wanted (refresh_current p fresh now r a s)).1.tokens
            ≡ 0)
  unfolding refresh_current
  reused_read fresh wanted now r a s gone =
      subst
        (λ x.
          ((answer p fresh wanted x).0 ≡ throw refresh_reused)
          × (live_in r.family_id (answer p fresh wanted x).1.tokens ≡ 0))
        (sym (reused_current fresh now r a s gone))
        (refl, live_in-revoke_own r.family_id now RevocationReason.reuse_detected s.tokens)

  -- A refresh with a stored token that is revoked or replaced is refused as reused, and no token
  -- of its family is live afterwards.
  pub reuse_revokes_family :
      (token : Text) (wanted : Bool) (fresh : Fresh) (now : ℕ) (s : Store) (r : RefreshToken)
      (a : Admin)
      → read_token (p.hash_token token) s ≡ some (r, a)
      → is_some r.revoked_at || is_some r.replaced_by ≡ true
      → ((refresh p token wanted fresh now s).0 ≡ throw refresh_reused)
        × (live_in r.family_id (refresh p token wanted fresh now s).1.tokens ≡ 0)
  unfolding refresh
  reuse_revokes_family token wanted fresh now s r a e gone =
      subst
        (λ o.
          ((answer p fresh wanted (refresh_read p fresh now o s)).0 ≡ throw refresh_reused)
          × (live_in r.family_id (answer p fresh wanted (refresh_read p fresh now o s)).1.tokens
              ≡ 0))
        (sym e) (reused_read fresh wanted now r a s gone)

  secret_signs_out :
      (a : Admin) (code : Text) (now : ℕ) (d : Option Text) (s : Store)
      → (with_secret p a admin_totp_disable code d (without_factor p a now s) s).0 ≡ ok tt
      → SignedOut a.id
          (with_secret p a admin_totp_disable code d (without_factor p a now s) s).1.tokens
  secret_signs_out a code now none s e = cc
  secret_signs_out a code now (some secret) s e =
      elim (p.totp_matches secret code)
          as (λ b.
            (if b
                then (ok tt, without_factor p a now s)
                else fail p a admin_totp_disable FailureReason.invalid_totp AuthError.totp_invalid
                    s).0
              ≡ ok tt
            → SignedOut a.id
                (if b
                  then (ok tt, without_factor p a now s)
                  else fail p a admin_totp_disable FailureReason.invalid_totp AuthError.totp_invalid
                      s).1.tokens) [
                        | true ↦
                            λ e. SignedOut-revoke a.id now RevocationReason.totp_disabled s.tokens
                        | false ↦ λ e. cc
                      ]
        e

  factor_signs_out :
      (a : Admin) (factor : Option Text) (code : Text) (now : ℕ) (s : Store)
      → (disable_factor p a factor code now s).0 ≡ ok tt
      → SignedOut a.id (disable_factor p a factor code now s).1.tokens
  factor_signs_out a none code now s e = cc
  factor_signs_out a (some encrypted) code now s e =
      secret_signs_out a code now (p.decrypt encrypted) s e

  disabled_as :
      (r : Result AuthError Admin) (password code : Text) (now : ℕ) (s : Store)
      → (disable_as p r password code now s).0 ≡ ok tt
      → (a : Admin) × (r ≡ ok a) × SignedOut a.id (disable_as p r password code now s).1.tokens
  disabled_as (throw x) password code now s e = cc
  disabled_as (ok a) password code now s e = (
    a,
    refl,
    elim (p.password_matches a.password_hash password)
          as (λ b.
            (if not b
                then fail p a admin_totp_disable FailureReason.invalid_password
                    AuthError.invalid_credentials s
                else disable_factor p a (filled a.totp_secret) code now s).0
              ≡ ok tt
            → SignedOut a.id
                (if not b
                  then fail p a admin_totp_disable FailureReason.invalid_password
                      AuthError.invalid_credentials s
                  else disable_factor p a (filled a.totp_secret) code now s).1.tokens) [
                    | true ↦ λ e. factor_signs_out a (filled a.totp_secret) code now s e
                    | false ↦ λ e. cc
                  ]
        e,
  )

  -- When the removal of the second factor succeeds, no refresh token of the administrator is live.
  pub disable_signs_out :
      (id password code : Text) (now : ℕ) (s : Store)
      → (disable_totp p id password code now s).0 ≡ ok tt
      → SignedOut id (disable_totp p id password code now s).1.tokens
  unfolding disable_totp
  disable_signs_out id password code now s e =
      let (a, found, out) = disabled_as (require_admin id s) password code now s e in
      subst (λ i. SignedOut i (disable_totp p id password code now s).1.tokens)
        (id-of_require_admin id s a found) out
