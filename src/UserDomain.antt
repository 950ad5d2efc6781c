-- ===== src/UserDomain.antt =====
-- apps/api/src/users/user-domain.ts: the status of a user whose state an administrator changes, and
-- the instant of a user's next traffic reset.
pub mod Reset
mod Tests
use over_vpn.Base.{
  ℕ, ◌+◌, Bool, true, false, ◌&&◌, ◌||◌, if◌then◌else◌, leb, Option, none, some, ℤ, pos, ◌+ℤ◌,
  leb_ℤ,
}
use over_vpn.Schema.{
  UserStatus, active, disabled, expired, limited, UserStatusReason, manual, quota, device, ip,
  ResetStrategy, no_reset, daily, monthly, yearly,
}
use over_vpn.Calendar.{civil, utc}

-- `UserStateForStatus`.
pub record UserState : Type 0 where
  pub expire_at : Option ℕ
  pub data_limit_bytes : Option ℤ
  pub used_upload_bytes : ℤ
  pub used_download_bytes : ℤ

pub record NormalizedUserStatus : Type 0 where
  pub status : UserStatus
  pub status_reason : Option UserStatusReason
  pub disabled_at : Option ℕ

-- `expireAt && expireAt <= now`.
abbrev pub is_past : Option ℕ → ℕ → Bool
is_past none now = false
is_past (some at) now = leb at now

-- `dataLimitBytes !== null && usedUploadBytes + usedDownloadBytes >= dataLimitBytes`.
abbrev pub quota_used : Option ℤ → ℤ → ℤ → Bool
quota_used none up down = false
quota_used (some limit) up down = leb_ℤ limit (up +ℤ down)

-- The reason of a requested `LIMITED`; an absent reason and a null one are both `none`.
abbrev pub limited_reason : Option UserStatusReason → UserStatusReason
limited_reason (some device) = device
limited_reason (some ip) = ip
limited_reason _ = quota

-- The status that follows from the state alone.
abbrev pub status_of_state : UserState → ℕ → NormalizedUserStatus
status_of_state state now =
    if is_past state.expire_at now
    then record {
      status = expired;
      status_reason = some UserStatusReason.expired;
      disabled_at = none;
    }
    else if quota_used state.data_limit_bytes state.used_upload_bytes state.used_download_bytes
    then record { status = limited; status_reason = some quota; disabled_at = none }
    else record { status = active; status_reason = none; disabled_at = none }

-- `normalizeUserStatus`.
unfoldable pub normalize_user_status :
    UserState → Option UserStatus → Option UserStatusReason → ℕ → NormalizedUserStatus
normalize_user_status state (some disabled) reason now = record {
  status = disabled;
  status_reason = some manual;
  disabled_at = some now;
}
normalize_user_status state (some expired) reason now = record {
  status = expired;
  status_reason = some UserStatusReason.expired;
  disabled_at = none;
}
normalize_user_status state (some limited) reason now = record {
  status = limited;
  status_reason = some (limited_reason reason);
  disabled_at = none;
}
normalize_user_status state (some active) reason now = status_of_state state now
normalize_user_status state none reason now = status_of_state state now

-- `calculateNextResetAt`; a day of the month counts from 0.
unfoldable pub calculate_next_reset_at : ResetStrategy → ℕ → Option ℕ
calculate_next_reset_at no_reset from = none
calculate_next_reset_at daily from = let c = civil from in some (utc c.year c.month (c.day + 1))
calculate_next_reset_at monthly from = let c = civil from in some (utc c.year (c.month + 1) 0)
calculate_next_reset_at yearly from = let c = civil from in some (utc (c.year + 1) 0 0)
