-- ===== src/Users/Settled.antt =====
-- Bulk actions and the enforcer: the row that an action leaves is the one that the enforcer wants.
use over_vpn.Base.{ℕ, Bool, true, false, Option, none, ◌≡◌}
use over_vpn.Schema.{User}
use over_vpn.Enforcement.{
  evaluate_enforced_status, next_identity_limit_hold_until, over_device_limit,
}
use over_vpn.Users.{Plan}
use over_vpn.Users.Bulk.{BulkUserAction, rotate_sub, set_plan}

-- An action that writes a status: no rotation, and no removal of the plan.
abbrev pub sets_status : BulkUserAction → Option Plan → Bool
sets_status rotate_sub plan = false
sets_status (set_plan id) none = false
sets_status _ plan = true

-- The enforcer gives a row the status, the reason and the hold that the row has.
abbrev pub IsSettled : ℕ → ℕ → ℕ → User → Type 0
IsSettled hold_ms now devices u =
    let enforced = evaluate_enforced_status u devices now in
    let over = over_device_limit u.device_limit devices in
    let hold = u.identity_limit_hold_until in
    (enforced.status ≡ u.status)
    × (enforced.status_reason ≡ u.status_reason)
    × (next_identity_limit_hold_until enforced over hold_ms now hold ≡ hold)
