-- ===== src/Auth/Refresh.antt =====
-- `refresh`: the rotation of a refresh token. The transaction reads the token, and then works on the
-- table as it is by then.
use over_vpn.Base.{
  ℕ, Bool, not, ◌&&◌, ◌||◌, List, [], ◌∷◌, ◌++◌, map, filter, length, Option, none, some, is_some,
  Text, text_eq, if◌then◌else◌, ltb, leb, ◌==◌, Result, ok, throw,
}
use over_vpn.Auth.{
  Admin, Store, Platform, Fresh, RefreshToken, RevocationReason, rotated, AuthError, AuthResult,
  authenticated, refresh_reused, token_invalid, body_token, find, admin_by_id, logged, revoke,
  in_family, is_live, new_token, admin_refresh, FailureReason, invalid_or_expired,
}

pub data RefreshOutcome : Type 0 where
  invalid : (actor : Option Text) → RefreshOutcome
  reused : RefreshOutcome
  inactive : RefreshOutcome
  success : Admin → RefreshOutcome

-- The row of a token, with its administrator, as the foreign key has one.
abbrev pub with_admin : Store → Option RefreshToken → Option (RefreshToken × Admin)
with_admin s none = none
with_admin s (some r) = elim (admin_by_id r.admin_user_id s) [ none ↦ none | some a ↦ some (r, a) ]

unfoldable pub read_token : Text → Store → Option (RefreshToken × Admin)
read_token hash s = with_admin s (find (λ r. text_eq r.token_hash hash) s.tokens)

-- The condition of the `updateMany` that claims the token.
abbrev pub can_claim : Text → ℕ → RefreshToken → Bool
can_claim id now r =
    text_eq r.id id && is_live r && not (is_some r.replaced_by) && ltb now r.expires_at

unfoldable pub claim : Text → ℕ → List RefreshToken → List RefreshToken
claim id now = map λ r.
    if can_claim id now r
    then record r { revoked_at = some now; revocation_reason = some rotated }
    else r

-- `update` of one row, revoked or not.
unfoldable pub expire : Text → ℕ → List RefreshToken → List RefreshToken
expire id now = map λ r.
    if text_eq r.id id
    then record r { revoked_at = some now; revocation_reason = some RevocationReason.expired }
    else r

unfoldable pub set_replaced : Text → Text → List RefreshToken → List RefreshToken
set_replaced id replacement =
    map λ r. if text_eq r.id id then record r { replaced_by = some replacement } else r

module _ (p : Platform) where
  abbrev pub revoke_family : Text → ℕ → RevocationReason → Store → Store
  revoke_family family now reason s = record s {
    tokens = revoke (in_family family) now reason s.tokens;
  }

  unfoldable pub rotate : Fresh → ℕ → RefreshToken → Admin → Store → RefreshOutcome × Store
  rotate fresh now current a s =
      if not (length (filter (can_claim current.id now) s.tokens) == 1)
      then (
        reused,
        record s {
          tokens =
              revoke (in_family current.family_id) now RevocationReason.reuse_detected
                (claim current.id now s.tokens);
        },
      )
      else (
        success a,
        logged (some current.admin_user_id) admin_refresh none (record s {
          tokens = set_replaced current.id fresh.token_id (
              claim current.id now s.tokens
              ++ new_token p fresh current.admin_user_id current.family_id now ∷ []);
        }),
      )

  -- The transaction, after its reading.
  unfoldable pub refresh_current : Fresh → ℕ → RefreshToken → Admin → Store → RefreshOutcome × Store
  refresh_current fresh now current a s =
      if is_some current.revoked_at || is_some current.replaced_by
      then (
        reused,
        logged (some current.admin_user_id) admin_refresh (some FailureReason.reuse_detected)
            (revoke_family current.family_id now RevocationReason.reuse_detected s),
      )
      else if leb current.expires_at now
      then (
        invalid (some current.admin_user_id),
        record s { tokens = expire current.id now s.tokens },
      )
      else if not a.active
      then (inactive, revoke_family current.family_id now RevocationReason.account_inactive s)
      else rotate fresh now current a s

  abbrev pub refresh_read :
      Fresh → ℕ → Option (RefreshToken × Admin) → Store → RefreshOutcome × Store
  refresh_read fresh now none s = (invalid none, s)
  refresh_read fresh now (some (current, a)) s = refresh_current fresh now current a s

  -- What follows the transaction.
  abbrev pub answer : Fresh → Bool → RefreshOutcome × Store → Result AuthError AuthResult × Store
  answer fresh wanted (reused, s) = (throw refresh_reused, s)
  answer fresh wanted (inactive, s) = (throw AuthError.account_inactive, s)
  answer fresh wanted (invalid actor, s) =
      (throw token_invalid, logged actor admin_refresh (some invalid_or_expired) s)
  answer fresh wanted (success a, s) =
      (ok (authenticated fresh.token (body_token wanted fresh.token) a), s)

  -- `refresh`, when no other request comes between.
  unfoldable pub refresh : Text → Bool → Fresh → ℕ → Store → Result AuthError AuthResult × Store
  refresh token wanted fresh now s =
      answer fresh wanted (refresh_read fresh now (read_token (p.hash_token token) s) s)
