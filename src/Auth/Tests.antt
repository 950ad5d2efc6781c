-- ===== src/Auth/Tests.antt =====
-- The authentication at concrete inputs.
use over_vpn.Base.{
  true, [], ◌∷◌, Option, none, some, Text, codes, text_eq, ok, throw, ◌≡◌, ◌≤◌, ◌↔◌, inl, refl,
  arith,
}
use over_vpn.Authorization.{admin}
use over_vpn.Auth.{
  Admin, Store, Platform, Fresh, RefreshToken, rotated, refresh_reused, second_factor_required,
}
use over_vpn.Auth.Login.{LoginRequest, login, named, open_session}
use over_vpn.Auth.Refresh.{refresh, read_token, refresh_current}
use over_vpn.Auth.Families.{System, Reachable, start, next, log_in, read, rotate_read}
use over_vpn.Auth.Families.Counts.{live_in}
use over_vpn.Auth.Families.Safe.{one_live_token}
use over_vpn.Auth.Admission.{is_authenticated, Admits, login_iff}
use over_vpn.Auth.Sessions.{reuse_revokes_family}

abbrev platform : Platform
platform = record {
  password_matches = text_eq;
  encrypt = λ t. t;
  decrypt = λ t. some t;
  totp_matches = text_eq;
  hash_token = λ t. t;
  refresh_ttl_seconds = 10;
}

abbrev root : Admin
root = record {
  id = codes "r";
  username = codes "u";
  password_hash = codes "w";
  role = admin;
  active = true;
  pending_totp_secret = none;
  totp_secret = some (codes "s");
  last_login_at = none;
}

abbrev empty : Store
empty = record { admins = root ∷ []; tokens = []; audit = [] }

abbrev drawn : Text → Fresh
drawn t = record { token = t; token_id = t; family_id = codes "f" }

abbrev request : Text → Option Text → LoginRequest
request password code = record {
  username = codes "u";
  password = password;
  totp_code = code;
  return_refresh_token = true;
}

abbrev first : RefreshToken
first = record {
  id = codes "1";
  admin_user_id = codes "r";
  token_hash = codes "1";
  family_id = codes "f";
  expires_at = 10100;
  revoked_at = none;
  revocation_reason = none;
  replaced_by = none;
}

abbrev used : RefreshToken
used = record first {
  revoked_at = some 200;
  revocation_reason = some rotated;
  replaced_by = some (codes "2");
}

abbrev second : RefreshToken
second = record first { id = codes "2"; token_hash = codes "2"; expires_at = 10200 }

abbrev signed_in : Store
signed_in = record empty { tokens = used ∷ second ∷ [] }

needs_code :
    (login platform (request (codes "w") none) (drawn (codes "1")) 100 empty).0
    ≡ ok second_factor_required
unfolding login text_eq
needs_code = refl

opens_one :
    (login platform (request (codes "w") (some (codes "s"))) (drawn (codes "1")) 100 empty).1.tokens
    ≡ first ∷ []
unfolding login text_eq open_session
opens_one = refl

rotates :
    (refresh platform
      (codes "1")
      true
      (drawn (codes "2"))
      200
      (record empty { tokens = first ∷ [] })).1.tokens
    ≡ used ∷ second ∷ []
unfolding refresh read_token text_eq refresh_current over_vpn.Auth.Refresh.rotate
    over_vpn.Auth.Refresh.set_replaced over_vpn.Auth.Refresh.claim
rotates = refl

login_iff_example :
    (is_authenticated platform
        ((login platform (request (codes "w") none) (drawn (codes "1")) 100 empty).0)
      ≡ true)
    ↔ Admits platform (request (codes "w") none) (named platform (codes "u") empty)
login_iff_example = login_iff platform (request (codes "w") none) (drawn (codes "1")) 100 empty

reuse_revokes_family_example :
    ((refresh platform (codes "1") true (drawn (codes "3")) 300 signed_in).0 ≡ throw refresh_reused)
    × (live_in
          (codes "f")
          (refresh platform (codes "1") true (drawn (codes "3")) 300 signed_in).1.tokens
        ≡ 0)
unfolding read_token text_eq
reuse_revokes_family_example =
    reuse_revokes_family platform (codes "1") true (drawn (codes "3")) 300 signed_in used root refl
      refl

abbrev before_login : System
before_login = record { store = empty; readings = [] }

abbrev after_login : System
after_login = record before_login {
  store = (open_session platform (request (codes "w") none) (drawn (codes "1")) 100 root empty).1;
}

abbrev after_read : System
after_read = record after_login { readings = first ∷ [] }

abbrev after_rotation : System
after_rotation = record after_read {
  store = (refresh_current platform (drawn (codes "2")) 200 first root after_read.store).1;
}

reached : Reachable platform after_rotation
unfolding open_session
reached =
    next after_read after_rotation
      (next after_login after_read
        (next before_login after_login (start empty refl)
          (log_in before_login (request (codes "w") none) (drawn (codes "1")) 100 root (tt, tt) tt))
        (read after_login first (inl refl)))
      (rotate_read after_read (drawn (codes "2")) 200 first root
        (((λ e. ground arith), tt), ((λ e. ground arith), tt)) (inl refl))

one_live_token_example : live_in (codes "f") after_rotation.store.tokens ≤ 1
one_live_token_example = one_live_token platform after_rotation (codes "f") reached
