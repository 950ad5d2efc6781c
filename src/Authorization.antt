-- ===== src/Authorization.antt =====
-- apps/api/src/common/authorization.ts: the two guards in front of every route. What the framework
-- reads of a route's decorators is a record; the check of a token and the table of administrators are
-- parameters.
pub mod Guard
mod Tests
use over_vpn.Base.{
  ℕ, ◌+◌, Bool, true, false, not, ◌&&◌, ◌||◌, List, [], ◌∷◌, any, Option, none, some, Text, text_eq,
  codes, leb, ◌==◌, if◌then◌else◌, Result, ok, throw, ◌>>=◌,
}

pub data AdminRole : Type 0 where
  owner admin readonly : AdminRole

pub record Route : Type 0 where
  pub is_public : Bool
  pub required_roles : Option (List AdminRole)
  pub readonly_mutation : Bool

pub record Request : Type 0 where
  pub method : Text
  pub authorization : Option Text

pub record Claims : Type 0 where
  pub sub : Text
  pub kind : Text

pub record AdminRow : Type 0 where
  pub id : Text
  pub role : AdminRole
  pub active : Bool

pub data ApiError : Type 0 where
  auth_token_invalid auth_account_inactive forbidden : ApiError

-- `split(' ')`: never empty.
abbrev pub add_to_first : ℕ → List Text → List Text
add_to_first c [] = (c ∷ []) ∷ []
add_to_first c (word ∷ words) = (c ∷ word) ∷ words

unfoldable pub split_spaces : Text → List Text
split_spaces [] = [] ∷ []
split_spaces (c ∷ t) =
    let words = split_spaces t in if c == 32 then [] ∷ words else add_to_first c words

-- `toLowerCase()` of ASCII; no other character has a lower case among the letters of "bearer".
abbrev pub lower : Text → Text
lower [] = []
lower (c ∷ t) = (if leb 65 c && leb c 90 then c + 32 else c) ∷ lower t

abbrev pub is_filled : Text → Bool
is_filled [] = false
is_filled (c ∷ t) = true

abbrev pub token_of : List Text → Option Text
token_of (scheme ∷ token ∷ []) =
    if text_eq (lower scheme) (codes "bearer") && is_filled token then some token else none
token_of (scheme ∷ token ∷ extra ∷ _) =
    if text_eq (lower scheme) (codes "bearer") && is_filled token && not (is_filled extra)
    then some token
    else none
token_of _ = none

-- `bearerToken`.
unfoldable pub bearer_token : Option Text → Option Text
bearer_token none = none
bearer_token (some header) = if is_filled header then token_of (split_spaces header) else none

abbrev pub active_admin : Option AdminRow → Result ApiError AdminRow
active_admin none = throw auth_account_inactive
active_admin (some a) = if a.active then ok a else throw auth_account_inactive

abbrev pub role_eq : AdminRole → AdminRole → Bool
role_eq owner owner = true
role_eq admin admin = true
role_eq readonly readonly = true
role_eq _ _ = false

abbrev pub is_mutation : Text → Bool
is_mutation method = not (
    text_eq method (codes "GET")
    || text_eq method (codes "HEAD")
    || text_eq method (codes "OPTIONS"))

-- `requiredRoles && !requiredRoles.includes(admin.role)`.
abbrev pub lacks_role : Option (List AdminRole) → AdminRole → Bool
lacks_role none role = false
lacks_role (some roles) role = not (any (role_eq role) roles)

-- `RolesGuard.canActivate` on a route that is not public, for the administrator of the request.
unfoldable pub roles_guard : Route → Text → Option AdminRow → Result ApiError Bool
roles_guard route method none = throw auth_token_invalid
roles_guard route method (some a) =
    if lacks_role route.required_roles a.role
    then throw forbidden
    else if role_eq a.role readonly && is_mutation method && not route.readonly_mutation
    then throw forbidden
    else ok true

module _ (verify_token : Text → Option Claims) (find_admin : Text → Option AdminRow) where
  abbrev pub admin_of : Option Claims → Result ApiError AdminRow
  admin_of none = throw auth_token_invalid
  admin_of (some claims) =
      if not (text_eq claims.kind (codes "access")) || not (is_filled claims.sub)
      then throw auth_token_invalid
      else active_admin (find_admin claims.sub)

  abbrev pub admin_of_token : Option Text → Result ApiError AdminRow
  admin_of_token none = throw auth_token_invalid
  admin_of_token (some token) = admin_of (verify_token token)

  -- `JwtAuthenticationGuard.canActivate` on a route that is not public.
  unfoldable pub authenticate : Request → Result ApiError AdminRow
  authenticate r = admin_of_token (bearer_token r.authorization)

  -- Both guards, in their order.
  unfoldable pub authorize : Route → Request → Result ApiError Bool
  authorize route r =
      if route.is_public
      then ok true
      else authenticate r >>= λ a. roles_guard route r.method (some a)
