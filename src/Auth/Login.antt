-- ===== src/Auth/Login.antt =====
-- `login` and `logout`.
use over_vpn.Base.{
  ℕ, Bool, not, List, [], ◌∷◌, ◌++◌, Option, none, some, Text, text_eq, if◌then◌else◌, Result, ok,
  throw,
}
use over_vpn.Auth.{
  Admin, Store, Platform, Fresh, AuthError, AuthResult, second_factor_required, authenticated,
  body_token, verify_password, filled, find, update_admin, logged, revoke, in_family, of_admin,
  new_token, admin_login, admin_logout, FailureReason, invalid_totp, logout, totp_invalid, internal,
  RefreshToken,
}

pub record LoginRequest : Type 0 where
  pub username : Text
  pub password : Text
  pub totp_code : Option Text
  pub return_refresh_token : Bool

module _ (p : Platform) where
  -- The transaction of a successful login.
  unfoldable pub open_session : LoginRequest → Fresh → ℕ → Admin → Store → AuthResult × Store
  open_session input fresh now a s =
      let touched = update_admin a.id (λ b. record b { last_login_at = some now }) s in
      let stored = record touched {
        tokens = touched.tokens ++ new_token p fresh a.id fresh.family_id now ∷ [];
      } in
      (
        authenticated fresh.token (body_token input.return_refresh_token fresh.token)
            (record a { last_login_at = some now }),
        logged (some a.id) admin_login none stored,
      )

  abbrev pub returned : AuthResult × Store → Result AuthError AuthResult × Store
  returned (r, s) = (ok r, s)

  -- The one-time code, once the secret is decrypted.
  abbrev pub check_code :
      LoginRequest
      → Fresh
      → ℕ
      → Admin
      → Text
      → Option Text
      → Store
      → Result AuthError AuthResult × Store
  check_code input fresh now a code none s = (throw internal, s)
  check_code input fresh now a code (some secret) s =
      if p.totp_matches secret code
      then returned (open_session input fresh now a s)
      else (throw totp_invalid, logged (some a.id) admin_login (some invalid_totp) s)

  abbrev pub second_factor :
      LoginRequest
      → Fresh
      → ℕ
      → Admin
      → Option Text
      → Option Text
      → Store
      → Result AuthError AuthResult × Store
  second_factor input fresh now a none code s = returned (open_session input fresh now a s)
  second_factor input fresh now a (some encrypted) none s = (ok second_factor_required, s)
  second_factor input fresh now a (some encrypted) (some code) s =
      check_code input fresh now a code (p.decrypt encrypted) s

  abbrev pub login_as :
      LoginRequest → Fresh → ℕ → Option Admin → Store → Result AuthError AuthResult × Store
  login_as input fresh now none s = (
    throw AuthError.invalid_credentials,
    logged none admin_login (some FailureReason.invalid_credentials) s,
  )
  login_as input fresh now (some a) s =
      if not (verify_password p (some a.password_hash) input.password)
      then (
        throw AuthError.invalid_credentials,
        logged (some a.id) admin_login (some FailureReason.invalid_credentials) s,
      )
      else if not a.active
      then (
        throw AuthError.account_inactive,
        logged (some a.id) admin_login (some FailureReason.account_inactive) s,
      )
      else second_factor input fresh now a (filled a.totp_secret) (filled input.totp_code) s

  abbrev pub named : Text → Store → Option Admin
  named username s = find (λ a. text_eq a.username username) s.admins

  -- `login`.
  unfoldable pub login : LoginRequest → Fresh → ℕ → Store → Result AuthError AuthResult × Store
  login input fresh now s = login_as input fresh now (named input.username s) s

  abbrev pub token_with : Text → Store → Option RefreshToken
  token_with token s = find (λ r. text_eq r.token_hash (p.hash_token token)) s.tokens

  -- The tokens that a logout revokes.
  abbrev pub logged_out : Text → ℕ → Option RefreshToken → List RefreshToken → List RefreshToken
  logged_out admin_id now none tokens = tokens
  logged_out admin_id now (some stored) tokens =
      if text_eq stored.admin_user_id admin_id
      then revoke (in_family stored.family_id) now logout tokens
      else tokens

  abbrev pub without_session : Text → ℕ → Option Text → Store → List RefreshToken
  without_session admin_id now none s = revoke (of_admin admin_id) now logout s.tokens
  without_session admin_id now (some token) s =
      logged_out admin_id now (token_with token s) s.tokens

  -- `logout`.
  unfoldable pub log_out : Text → Option Text → ℕ → Store → Store
  log_out admin_id token now s =
      logged (some admin_id) admin_logout none
        (record s { tokens = without_session admin_id now (filled token) s })
