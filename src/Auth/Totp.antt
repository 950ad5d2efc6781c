-- ===== src/Auth/Totp.antt =====
-- `enableTotp`, `confirmTotp` and `disableTotp`: the second factor of an administrator.
use over_vpn.Base.{ℕ, not, Option, none, some, Text, if◌then◌else◌, Result, ok, throw}
use over_vpn.Auth.{
  Admin, Store, Platform, AuthError, totp_invalid, totp_required, conflict, internal, AuthAction,
  admin_totp_enable, admin_totp_confirm, admin_totp_disable, FailureReason, invalid_totp,
  invalid_password, totp_setup_not_pending, totp_not_enabled, totp_disabled, verify_password,
  filled, require_admin, update_admin, logged, revoke, of_admin,
}

module _ (p : Platform) where
  abbrev pub fail :
      Admin → AuthAction → FailureReason → AuthError → Store → Result {0, 0} AuthError Unit × Store
  fail a action reason e s = (throw e, logged (some a.id) action (some reason) s)

  -- A code against an encrypted secret; `next` is what a good code allows.
  abbrev pub with_secret :
      Admin → AuthAction → Text → Option Text → Store → Store → Result {0, 0} AuthError Unit × Store
  with_secret a action code none next s = (throw internal, s)
  with_secret a action code (some secret) next s =
      if p.totp_matches secret code
      then (ok tt, next)
      else fail a action invalid_totp totp_invalid s

  -- The secret waits for its confirmation.
  abbrev pub pending_secret : Admin → Text → Store → Store
  pending_secret a secret s =
      logged (some a.id) admin_totp_enable none
        (update_admin a.id (λ b. record b { pending_totp_secret = some (p.encrypt secret) }) s)

  abbrev pub replace_factor :
      Admin → Option Text → Option Text → Text → Store → Result {0, 0} AuthError Unit × Store
  replace_factor a none code secret s = (ok tt, pending_secret a secret s)
  replace_factor a (some encrypted) none secret s =
      fail a admin_totp_enable FailureReason.totp_required totp_required s
  replace_factor a (some encrypted) (some code) secret s =
      with_secret a admin_totp_enable code (p.decrypt encrypted) (pending_secret a secret s) s

  abbrev pub enable_as :
      Result AuthError Admin
      → Text
      → Option Text
      → Text
      → Store
      → Result {0, 0} AuthError Unit × Store
  enable_as (throw e) password code secret s = (throw e, s)
  enable_as (ok a) password code secret s =
      if not (verify_password p (some a.password_hash) password)
      then fail a admin_totp_enable invalid_password AuthError.invalid_credentials s
      else replace_factor a (filled a.totp_secret) (filled code) secret s

  -- `enableTotp`, with the secret that it draws.
  unfoldable pub enable_totp :
      Text → Text → Option Text → Text → Store → Result {0, 0} AuthError Unit × Store
  enable_totp id password code secret s = enable_as (require_admin id s) password code secret s

  -- The pending secret becomes the second factor.
  abbrev pub confirmed : Admin → Store → Store
  confirmed a s = logged (some a.id) admin_totp_confirm none (
      update_admin a.id
        (λ b. record b { totp_secret = a.pending_totp_secret; pending_totp_secret = none }) s)

  abbrev pub confirm_pending :
      Admin → Option Text → Text → Store → Result {0, 0} AuthError Unit × Store
  confirm_pending a none code s = fail a admin_totp_confirm totp_setup_not_pending conflict s
  confirm_pending a (some encrypted) code s =
      with_secret a admin_totp_confirm code (p.decrypt encrypted) (confirmed a s) s

  abbrev pub confirm_as :
      Result AuthError Admin → Text → Store → Result {0, 0} AuthError Unit × Store
  confirm_as (throw e) code s = (throw e, s)
  confirm_as (ok a) code s = confirm_pending a (filled a.pending_totp_secret) code s

  -- `confirmTotp`.
  unfoldable pub confirm_totp : Text → Text → Store → Result {0, 0} AuthError Unit × Store
  confirm_totp id code s = confirm_as (require_admin id s) code s

  -- No second factor, and no session.
  abbrev pub without_factor : Admin → ℕ → Store → Store
  without_factor a now s =
      let cleared =
        update_admin a.id (λ b. record b { totp_secret = none; pending_totp_secret = none }) s in
      logged (some a.id) admin_totp_disable none
        (record cleared { tokens = revoke (of_admin a.id) now totp_disabled cleared.tokens })

  abbrev pub disable_factor :
      Admin → Option Text → Text → ℕ → Store → Result {0, 0} AuthError Unit × Store
  disable_factor a none code now s = fail a admin_totp_disable totp_not_enabled conflict s
  disable_factor a (some encrypted) code now s =
      with_secret a admin_totp_disable code (p.decrypt encrypted) (without_factor a now s) s

  abbrev pub disable_as :
      Result AuthError Admin → Text → Text → ℕ → Store → Result {0, 0} AuthError Unit × Store
  disable_as (throw e) password code now s = (throw e, s)
  disable_as (ok a) password code now s =
      if not (verify_password p (some a.password_hash) password)
      then fail a admin_totp_disable invalid_password AuthError.invalid_credentials s
      else disable_factor a (filled a.totp_secret) code now s

  -- `disableTotp`.
  unfoldable pub disable_totp :
      Text → Text → Text → ℕ → Store → Result {0, 0} AuthError Unit × Store
  disable_totp id password code now s = disable_as (require_admin id s) password code now s
