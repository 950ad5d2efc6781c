-- ===== src/Enforcement/Policy.antt =====
-- What the enforced status promises.
use over_vpn.Base.{
  ℕ, ◌≤◌, ◌<◌, Bool, false, Option, none, some, ◌≡◌, refl, ap, ◌≢◌, ◌↔◌, ◌⊎◌, arith, ℤ, pos, ◌+ℤ◌,
  ◌≤ℤ◌, ◌<ℤ◌,
}
use over_vpn.Schema.{User, active, disabled, limited, device}
use over_vpn.UserDomain.{is_past, quota_used}
use over_vpn.Enforcement.{
  EnforcedStatus, evaluate_enforced_status, next_identity_limit_hold_until, over_device_limit,
  is_held,
}
use over_vpn.Enforcement.Equal.{status_eq→eq, reason_eq→eq}

-- An instant is before the expiry, where there is one.
abbrev pub IsBefore : ℕ → Option ℕ → Type 0
IsBefore now none = Unit
IsBefore now (some at) = now < at

-- The bytes used are fewer than the quota, where there is one.
abbrev pub IsBelow : ℤ → Option ℤ → Type 0
IsBelow used none = Unit
IsBelow used (some limit) = used <ℤ limit

-- The devices are no more than the limit, where there is one.
abbrev pub IsWithin : ℕ → Option ℤ → Type 0
IsWithin devices none = Unit
IsWithin devices (some limit) = pos devices ≤ℤ limit

-- A hold, where there is one, has ended by an instant.
abbrev pub HasEnded : ℕ → Option ℕ → Type 0
HasEnded now none = Unit
HasEnded now (some until) = until ≤ now

is_past_iff : (at : Option ℕ) (now : ℕ) → (is_past at now ≡ false) ↔ IsBefore now at
is_past_iff none now = (λ h. tt, λ h. refl)
is_past_iff (some at) now = ground arith

quota_used_iff :
    (limit : Option ℤ) (up down : ℤ)
    → (quota_used limit up down ≡ false) ↔ IsBelow (up +ℤ down) limit
quota_used_iff none up down = (λ h. tt, λ h. refl)
quota_used_iff (some limit) up down = ground arith

over_device_limit_iff :
    (limit : Option ℤ) (devices : ℕ)
    → (over_device_limit limit devices ≡ false) ↔ IsWithin devices limit
over_device_limit_iff none devices = (λ h. tt, λ h. refl)
over_device_limit_iff (some limit) devices = ground arith

is_held_iff : (hold : Option ℕ) (now : ℕ) → (is_held hold now ≡ false) ↔ HasEnded now hold
is_held_iff none now = (λ h. tt, λ h. refl)
is_held_iff (some until) now = ground arith

-- A user gets the status ACTIVE exactly when they are not disabled, the instant is before the
-- expiry if there is one, the bytes of both directions are fewer than the quota if there is one,
-- the devices are no more than the limit if there is one, and, if they are limited for devices, a
-- hold that is stored has ended by that instant.
pub evaluate_enforced_status-active_iff :
    (u : User) (devices now : ℕ)
    → ((evaluate_enforced_status u devices now).status ≡ active) ↔ (
        (u.status ≢ disabled)
        × IsBefore now u.expire_at
        × IsBelow (u.used_upload_bytes +ℤ u.used_download_bytes) u.data_limit_bytes
        × IsWithin devices u.device_limit
        × ((u.status ≢ limited)
            ⊎ (u.status_reason ≢ some device)
            ⊎ HasEnded now u.identity_limit_hold_until))
unfolding evaluate_enforced_status
evaluate_enforced_status-active_iff u devices now = ground (
  arith,
  status_eq→eq u.status disabled,
  status_eq→eq u.status limited,
  reason_eq→eq u.status_reason (some device),
  is_past_iff u.expire_at now,
  quota_used_iff u.data_limit_bytes u.used_upload_bytes u.used_download_bytes,
  over_device_limit_iff u.device_limit devices,
  is_held_iff u.identity_limit_hold_until now,
)

-- A row with an enforced status and its hold has that status at the same instant.
pub evaluate_enforced_status-again :
    (u v : User) (devices hold_ms now : ℕ)
    → v.expire_at ≡ u.expire_at
    → v.data_limit_bytes ≡ u.data_limit_bytes
    → v.used_upload_bytes ≡ u.used_upload_bytes
    → v.used_download_bytes ≡ u.used_download_bytes
    → v.device_limit ≡ u.device_limit
    → v.status ≡ (evaluate_enforced_status u devices now).status
    → v.status_reason ≡ (evaluate_enforced_status u devices now).status_reason
    → v.identity_limit_hold_until
      ≡ next_identity_limit_hold_until
          (evaluate_enforced_status u devices now)
          (over_device_limit u.device_limit devices)
          hold_ms
          now
          u.identity_limit_hold_until
    → evaluate_enforced_status v devices now ≡ evaluate_enforced_status u devices now
unfolding evaluate_enforced_status next_identity_limit_hold_until
evaluate_enforced_status-again u v devices hold_ms now e1 e2 e3 e4 e5 s r h =
    let same_past = ap (λ at. is_past at now) e1 in
    let same_over = ap (λ limit. over_device_limit limit devices) e5 in
    ground (arith, status_eq→eq u.status disabled)

pub next_identity_limit_hold_until-again :
    (enforced : EnforcedStatus) (over : Bool) (hold_ms now : ℕ) (previous : Option ℕ)
    → let hold = next_identity_limit_hold_until enforced over hold_ms now previous in
      next_identity_limit_hold_until enforced over hold_ms now hold ≡ hold
unfolding next_identity_limit_hold_until
next_identity_limit_hold_until-again enforced over hold_ms now previous = ground arith
