-- ===== src/Enforcement.antt =====
-- apps/api/src/workers/limit-enforcement.ts: the status that a user must have, the hold of a device
-- limit, and the devices of the online sessions. `EnforceableUser` is a view of the user row.
pub mod Equal
pub mod Policy
pub mod Devices
use over_vpn.Base.{
  ℕ, ◌+◌, Bool, true, false, not, ◌&&◌, ◌||◌, if◌then◌else◌, ltb, leb, Option, none, some, ℤ, pos,
  ltb_ℤ, Text, codes, List, [], ◌∷◌, ◌++◌, get, put, any, text_eq, length,
}
use over_vpn.Schema.{
  User, UserStatus, active, disabled, expired, limited, UserStatusReason, manual, quota, device,
  ResetStrategy,
}
use over_vpn.UserDomain.{is_past, quota_used, calculate_next_reset_at}
use Equal.{status_eq, reason_eq}

pub record EnforcedStatus : Type 0 where
  pub status : UserStatus
  pub status_reason : Option UserStatusReason

pub record SessionIdentity : Type 0 where
  pub user_id : Text
  pub device_id : Option Text
  pub ip_address : Option Text

-- A text is truthy when it is not empty.
abbrev pub is_truthy : Text → Bool
is_truthy [] = false
is_truthy (c ∷ t) = true

abbrev pub ip_key : Option Text → Option Text
ip_key none = none
ip_key (some ip) = if is_truthy ip then some (codes "ip:" ++ ip) else none

-- `deviceKeyFromSession`.
abbrev pub device_key_from_session : SessionIdentity → Option Text
device_key_from_session s = elim s.device_id [ some id ↦ some id | none ↦ ip_key s.ip_address ]

-- `Set.add` on the list of a set's members.
abbrev pub add_member : Text → List Text → List Text
add_member x xs = if any (text_eq x) xs then xs else xs ++ x ∷ []

-- `if (device) entry.devices.add(device)`.
abbrev pub add_device : Option Text → List Text → List Text
add_device none devices = devices
add_device (some key) devices = if is_truthy key then add_member key devices else devices

-- `identities.get(id) ?? new Set()`.
abbrev pub devices_of : Option (List Text) → List Text
devices_of none = []
devices_of (some devices) = devices

unfoldable pub count_from : List (Text × List Text) → List SessionIdentity → List (Text × List Text)
count_from identities [] = identities
count_from identities (s ∷ rest) =
    let devices = add_device (device_key_from_session s) (devices_of (get s.user_id identities)) in
    count_from (put s.user_id devices identities) rest

-- `countIdentitiesByUser`.
abbrev pub count_identities_by_user : List SessionIdentity → List (Text × List Text)
count_identities_by_user sessions = count_from [] sessions

-- `deviceLimit !== null && active.devices > deviceLimit`.
abbrev pub over_device_limit : Option ℤ → ℕ → Bool
over_device_limit none devices = false
over_device_limit (some limit) devices = ltb_ℤ limit (pos devices)

-- `hold !== null && hold > now`.
abbrev pub is_held : Option ℕ → ℕ → Bool
is_held none now = false
is_held (some until) now = ltb now until

-- The status is `LIMITED` for the device limit.
abbrev pub is_device_limited : UserStatus → Option UserStatusReason → Bool
is_device_limited status reason = status_eq status limited && reason_eq reason (some device)

-- `evaluateEnforcedStatus`.
unfoldable pub evaluate_enforced_status : User → ℕ → ℕ → EnforcedStatus
evaluate_enforced_status u devices now =
    if status_eq u.status disabled
    then record { status = disabled; status_reason = some manual }
    else if is_past u.expire_at now
    then record { status = expired; status_reason = some UserStatusReason.expired }
    else if quota_used u.data_limit_bytes u.used_upload_bytes u.used_download_bytes
    then record { status = limited; status_reason = some quota }
    else if over_device_limit u.device_limit devices
    then record { status = limited; status_reason = some device }
    else if is_device_limited u.status u.status_reason && is_held u.identity_limit_hold_until now
    then record { status = limited; status_reason = some device }
    else record { status = active; status_reason = none }

-- `nextIdentityLimitHoldUntil`.
unfoldable pub next_identity_limit_hold_until : EnforcedStatus → Bool → ℕ → ℕ → Option ℕ → Option ℕ
next_identity_limit_hold_until enforced over hold_ms now previous =
    if is_device_limited enforced.status enforced.status_reason && over
    then some (now + hold_ms)
    else if is_device_limited enforced.status enforced.status_reason
    then previous
    else none

-- `nextResetAfterEnforcement`.
abbrev pub next_reset_after_enforcement : ResetStrategy → ℕ → Option ℕ
next_reset_after_enforcement strategy now = calculate_next_reset_at strategy now
