-- ===== src/Auth.antt =====
-- apps/api/src/auth/auth.service.ts, with PasswordService.verify of auth-crypto.ts: the tables of
-- administrators and refresh tokens, and what the operations share. Hashes, ciphers and one-time
-- codes are the platform's; fresh tokens and ids are arguments; a request's address is left out.
pub mod Login
pub mod Refresh
pub mod Totp
pub mod Families
pub mod Admission
pub mod Sessions
mod Tests
use over_vpn.Base.{
  ℕ, ◌+◌, ◌*◌, Bool, true, false, not, ◌&&◌, ◌||◌, List, [], ◌∷◌, ◌++◌, map, Option, none, some,
  is_some, Text, text_eq, if◌then◌else◌, Result, ok, throw,
}
use over_vpn.Authorization.{AdminRole}

pub record Admin : Type 0 where
  pub id : Text
  pub username : Text
  pub password_hash : Text
  pub role : AdminRole
  pub active : Bool
  pub pending_totp_secret : Option Text
  pub totp_secret : Option Text
  pub last_login_at : Option ℕ

pub data RevocationReason : Type 0 where
  reuse_detected expired account_inactive rotated logout totp_disabled : RevocationReason

pub record RefreshToken : Type 0 where
  pub id : Text
  pub admin_user_id : Text
  pub token_hash : Text
  pub family_id : Text
  pub expires_at : ℕ
  pub revoked_at : Option ℕ
  pub revocation_reason : Option RevocationReason
  pub replaced_by : Option Text

pub data AuthAction : Type 0 where
  admin_login admin_refresh admin_logout admin_totp_enable admin_totp_confirm admin_totp_disable :
      AuthAction

pub data FailureReason : Type 0 where
  invalid_credentials account_inactive invalid_totp reuse_detected invalid_or_expired
        invalid_password totp_required totp_setup_not_pending totp_not_enabled :
      FailureReason

-- An audit record; `none` is a success.
pub record AuthAudit : Type 0 where
  pub actor : Option Text
  pub action : AuthAction
  pub failure : Option FailureReason

pub record Store : Type 0 where
  pub admins : List Admin
  pub tokens : List RefreshToken
  pub audit : List AuthAudit

-- The errors with the code of their answer; `internal` is any other exception.
pub data AuthError : Type 0 where
  invalid_credentials account_inactive totp_invalid totp_required refresh_reused token_invalid
        conflict internal :
      AuthError

-- What the operations use of the platform.
pub record Platform : Type 0 where
  pub password_matches : Text → Text → Bool
  pub encrypt : Text → Text
  pub decrypt : Text → Option Text
  pub totp_matches : Text → Text → Bool
  pub hash_token : Text → Text
  pub refresh_ttl_seconds : ℕ

-- Random values drawn in the course of an operation.
pub record Fresh : Type 0 where
  pub token : Text
  pub token_id : Text
  pub family_id : Text

-- `passwords.verify`; an absent hash is compared with a dummy, and refused.
abbrev pub verify_password : Platform → Option Text → Text → Bool
verify_password p none password = false
verify_password p (some hash) password = p.password_matches hash password

abbrev pub is_filled : Text → Bool
is_filled [] = false
is_filled (c ∷ t) = true

-- A text that is neither absent nor empty.
abbrev pub filled : Option Text → Option Text
filled none = none
filled (some t) = if is_filled t then some t else none

abbrev pub find {ℓ} : {A : Type ℓ} → (A → Bool) → List A → Option A
find p [] = none
find p (x ∷ xs) = if p x then some x else find p xs

abbrev pub admin_by_id : Text → Store → Option Admin
admin_by_id id s = find (λ a. text_eq a.id id) s.admins

abbrev pub update_admin : Text → (Admin → Admin) → Store → Store
update_admin id f s = record s { admins = map (λ a. if text_eq a.id id then f a else a) s.admins }

abbrev pub logged : Option Text → AuthAction → Option FailureReason → Store → Store
logged actor action failure s = record s {
  audit = s.audit ++ record { actor = actor; action = action; failure = failure } ∷ [];
}

abbrev pub is_live : RefreshToken → Bool
is_live r = not (is_some r.revoked_at)

-- `updateMany` of the rows that are not revoked yet.
unfoldable pub revoke :
    (RefreshToken → Bool) → ℕ → RevocationReason → List RefreshToken → List RefreshToken
revoke p now reason = map λ r.
    if p r && is_live r
    then record r { revoked_at = some now; revocation_reason = some reason }
    else r

abbrev pub in_family : Text → RefreshToken → Bool
in_family family r = text_eq r.family_id family

abbrev pub of_admin : Text → RefreshToken → Bool
of_admin id r = text_eq r.admin_user_id id

-- A new refresh token of a family.
abbrev pub new_token : Platform → Fresh → Text → Text → ℕ → RefreshToken
new_token p fresh admin_id family now = record {
  id = fresh.token_id;
  admin_user_id = admin_id;
  token_hash = p.hash_token fresh.token;
  family_id = family;
  expires_at = now + p.refresh_ttl_seconds * 1000;
  revoked_at = none;
  revocation_reason = none;
  replaced_by = none;
}

-- An answer of `login` and `refresh`; the token in the body is there when the request asks for it.
pub data AuthResult : Type 0 where
  second_factor_required : AuthResult
  authenticated : (refresh_token : Text) (body_token : Option Text) (admin : Admin) → AuthResult

abbrev pub body_token : Bool → Text → Option Text
body_token wanted token = if wanted then some token else none

-- `requireAdmin`.
abbrev pub require_admin : Text → Store → Result AuthError Admin
require_admin id s = elim (admin_by_id id s) [
  | none ↦ throw AuthError.account_inactive
  | some a ↦ if a.active then ok a else throw AuthError.account_inactive
]
