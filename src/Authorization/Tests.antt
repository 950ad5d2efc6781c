-- ===== src/Authorization/Tests.antt =====
-- The guards at concrete inputs.
use over_vpn.Base.{
  ◌≡◌, ◌↔◌, ◌⊎◌, refl, true, false, none, some, Option, Text, text_eq, codes, ok, throw,
  if◌then◌else◌,
}
use over_vpn.Authorization.{
  AdminRole, owner, admin, readonly, Route, Request, Claims, AdminRow, forbidden,
  auth_account_inactive, bearer_token, authorize,
}
use over_vpn.Authorization.Guard.{Speaks, Permits, authorize_iff}

-- The only good token is "t", of the reader.
abbrev check : Text → Option Claims
check token =
    if text_eq token (codes "t")
    then some (record { sub = codes "1"; kind = codes "access" })
    else none

abbrev reader : AdminRow
reader = record { id = codes "1"; role = readonly; active = true }

abbrev admins : Text → Option AdminRow
admins id = if text_eq id (codes "1") then some reader else none

abbrev closed : Route
closed = record { is_public = false; required_roles = none; readonly_mutation = false }

abbrev reading : Request
reading = record { method = codes "GET"; authorization = some (codes "BEARER t") }

trailing_space : bearer_token (some (codes "Bearer t ")) ≡ some (codes "t")
unfolding bearer_token over_vpn.Authorization.split_spaces text_eq
trailing_space = refl

other_scheme : bearer_token (some (codes "Basic t")) ≡ none
unfolding bearer_token over_vpn.Authorization.split_spaces text_eq
other_scheme = refl

reader_reads : authorize check admins closed reading ≡ ok true
unfolding authorize over_vpn.Authorization.authenticate bearer_token
    over_vpn.Authorization.split_spaces text_eq over_vpn.Authorization.roles_guard
reader_reads = refl

reader_cannot_write :
    authorize check admins closed (record reading { method = codes "POST" }) ≡ throw forbidden
unfolding authorize over_vpn.Authorization.authenticate bearer_token
    over_vpn.Authorization.split_spaces text_eq over_vpn.Authorization.roles_guard
reader_cannot_write = refl

authorize_iff_example : (authorize check admins closed reading ≡ ok true) ↔ (
    (closed.is_public ≡ true)
    ⊎ ((a : AdminRow) × Speaks check admins reading a
        × Permits check admins closed reading.method a.role))
authorize_iff_example = authorize_iff check admins closed reading
