-- ===== src/Enforcer/Tests.antt =====
-- Runs of the enforcer, and the theorems of enforcement at concrete inputs.
use over_vpn.Base.{
  ℕ, ◌+◌, ◌<◌, ◌≤◌, ◌≡◌, ◌≢◌, ◌↔◌, ◌⊎◌, inl, inr, refl, arith, Bool, true, false, ◌&&◌, List, [],
  ◌∷◌, none, some, Option, Text, codes, pos, Result, ok, throw, length, map, any, text_eq, get,
  ◌+ℤ◌,
}
use over_vpn.Schema.{User, active, disabled, limited, quota, device, daily}
use over_vpn.UserDomain.{normalize_user_status, is_past, quota_used}
use over_vpn.Enforcement.{
  SessionIdentity, count_identities_by_user, devices_of, evaluate_enforced_status,
  over_device_limit, is_held, is_device_limited,
}
use over_vpn.Enforcement.Policy.{
  evaluate_enforced_status-active_iff, IsBefore, IsBelow, IsWithin, HasEnded,
}
use over_vpn.Enforcer.{
  OnlineSession, Tables, Outcome, enforce_limits, enforce_loop, updated_user, needs_update,
  enforced_status, outcome, written,
}
use over_vpn.Enforcer.Hold.{device_hold_iff}
use over_vpn.Enforcer.Table.{IsKeyed, enforce_loop-users, enforced_table, identities_of}
use over_vpn.Enforcer.Settled.{enforce_limits_twice}
use over_vpn.Enforcer.Pending.{transitions_le_pending}
use over_vpn.Enforcer.Run.{ApplyStatus, succeeded, healthy, acquired, Answers, run_once}
use over_vpn.Enforcer.Run.Applied.{run_once-applied}

-- 2024-02-29 12:00 UTC.
abbrev noon : ℕ
noon = 1709208000000

-- A user with a daily reset that is due, over the quota, and with one device allowed.
abbrev bob : User
bob = record {
  id = codes "b";
  username = codes "bob";
  status = limited;
  status_reason = some quota;
  expire_at = none;
  data_limit_bytes = some (pos 100);
  used_upload_bytes = pos 60;
  used_download_bytes = pos 40;
  accounting_epoch = pos 3;
  traffic_reset_at = none;
  reset_strategy = daily;
  next_reset_at = some 1709164800000;
  device_limit = some (pos 1);
  identity_limit_hold_until = none;
  needs_apply = false;
  revision = 7;
  disabled_at = none;
  deleted_at = none;
}

abbrev gone : User
gone = record bob { id = codes "g"; deleted_at = some 1 }

abbrev on_device : Text → Text → OnlineSession
on_device id key = record {
  identity = record { user_id = id; device_id = some key; ip_address = none };
  last_seen_at = noon;
  disconnected_at = none;
}

abbrev tables : Tables
tables = record {
  users = bob ∷ gone ∷ [];
  sessions = on_device bob.id (codes "d") ∷ on_device bob.id (codes "d") ∷ [];
  audit = [];
}

abbrev busy : Tables
busy = record tables { sessions = on_device bob.id (codes "d") ∷ on_device bob.id (codes "e") ∷ [] }

reset_bob : (updated_user 600000 noon bob 1).status ≡ active
unfolding updated_user over_vpn.Enforcer.hold_data over_vpn.Enforcer.hold_changed
    over_vpn.Enforcer.next_hold over_vpn.Enforcement.next_identity_limit_hold_until
    over_vpn.Enforcer.enforced_status evaluate_enforced_status over_vpn.Enforcer.with_usage
    over_vpn.Enforcer.is_due over_vpn.Base.◌+ℤ◌ over_vpn.Enforcer.status_data
    over_vpn.Enforcer.status_changed
reset_bob = refl

held_bob : (updated_user 600000 noon bob 2).identity_limit_hold_until ≡ some 1709208600000
unfolding updated_user over_vpn.Enforcer.hold_data over_vpn.Enforcer.hold_changed
    over_vpn.Enforcer.next_hold over_vpn.Enforcement.next_identity_limit_hold_until
    over_vpn.Enforcer.enforced_status evaluate_enforced_status over_vpn.Enforcer.with_usage
    over_vpn.Enforcer.is_due over_vpn.Base.◌+ℤ◌
held_bob = refl

changes_of_run : length (outcome 600000 90000 noon tables).transitions ≡ 1
unfolding enforce_loop over_vpn.Enforcer.enforce_users over_vpn.Enforcer.enforce_user needs_update
    over_vpn.Enforcer.is_due over_vpn.Enforcer.status_changed over_vpn.Enforcer.enforced_status
    evaluate_enforced_status over_vpn.Enforcer.with_usage over_vpn.Base.◌+ℤ◌ get
    over_vpn.Enforcement.count_from over_vpn.Base.put text_eq
changes_of_run = refl

abbrev identities : Tables → List SessionIdentity
identities db = map (λ s. s.identity) db.sessions

tables-IsKeyed : IsKeyed tables.users
tables-IsKeyed = ((λ e. absurd (ground arith), tt), (tt, tt))

evaluate_enforced_status-active_iff_example :
    ((evaluate_enforced_status bob 1 noon).status ≡ active) ↔ (
      (bob.status ≢ disabled)
      × IsBefore noon bob.expire_at
      × IsBelow (bob.used_upload_bytes +ℤ bob.used_download_bytes) bob.data_limit_bytes
      × IsWithin 1 bob.device_limit
      × ((bob.status ≢ limited)
          ⊎ (bob.status_reason ≢ some device)
          ⊎ HasEnded noon bob.identity_limit_hold_until))
evaluate_enforced_status-active_iff_example = evaluate_enforced_status-active_iff bob 1 noon

limited_bob : (enforced_status 600000 noon bob 2).status ≡ limited
unfolding enforced_status evaluate_enforced_status over_vpn.Enforcer.with_usage
    over_vpn.Enforcer.is_due over_vpn.Base.◌+ℤ◌
limited_bob = refl

device_bob : (enforced_status 600000 noon bob 2).status_reason ≡ some device
unfolding enforced_status evaluate_enforced_status over_vpn.Enforcer.with_usage
    over_vpn.Enforcer.is_due over_vpn.Base.◌+ℤ◌
device_bob = refl

quota_bob :
    let v = updated_user 600000 noon bob 2 in
    quota_used v.data_limit_bytes v.used_upload_bytes v.used_download_bytes ≡ false
unfolding updated_user over_vpn.Enforcer.hold_data over_vpn.Enforcer.hold_changed
    over_vpn.Enforcer.next_hold over_vpn.Enforcement.next_identity_limit_hold_until enforced_status
    evaluate_enforced_status over_vpn.Enforcer.with_usage over_vpn.Enforcer.is_due
    over_vpn.Base.◌+ℤ◌ over_vpn.Enforcer.status_data over_vpn.Enforcer.status_changed
    over_vpn.Enforcer.reset_data
quota_bob = refl

time_bob : is_past (updated_user 600000 noon bob 2).expire_at 1709208500000 ≡ false
unfolding updated_user over_vpn.Enforcer.hold_data over_vpn.Enforcer.hold_changed
    over_vpn.Enforcer.next_hold over_vpn.Enforcement.next_identity_limit_hold_until enforced_status
    evaluate_enforced_status over_vpn.Enforcer.with_usage over_vpn.Enforcer.is_due
    over_vpn.Base.◌+ℤ◌ over_vpn.Enforcer.status_data over_vpn.Enforcer.status_changed
    over_vpn.Enforcer.reset_data
time_bob = refl

devices_bob : over_device_limit (updated_user 600000 noon bob 2).device_limit 0 ≡ false
unfolding updated_user over_vpn.Enforcer.hold_data over_vpn.Enforcer.hold_changed
    over_vpn.Enforcer.next_hold over_vpn.Enforcement.next_identity_limit_hold_until enforced_status
    evaluate_enforced_status over_vpn.Enforcer.with_usage over_vpn.Enforcer.is_due
    over_vpn.Base.◌+ℤ◌ over_vpn.Enforcer.status_data over_vpn.Enforcer.status_changed
    over_vpn.Enforcer.reset_data
devices_bob = refl

device_hold_iff_example :
    ((evaluate_enforced_status (updated_user 600000 noon bob 2) 0 1709208500000).status ≡ limited)
    ↔ (1709208500000 < noon + 600000)
device_hold_iff_example =
    device_hold_iff 600000 noon bob 2 1709208500000 0 limited_bob device_bob refl time_bob quota_bob
      devices_bob

enforce_loop-users_example :
    (enforce_loop 600000 90000 noon tables).users
    ≡ enforced_table 600000 noon (identities_of 600000 90000 noon tables) tables.users
enforce_loop-users_example = enforce_loop-users 600000 90000 noon tables tables-IsKeyed

transaction :
    enforce_limits 600000 90000 noon true tables
    ≡ ok (outcome 600000 90000 noon tables, written 600000 90000 noon tables)
unfolding enforce_limits
transaction = refl

enforce_limits_twice_example :
    (again : Outcome) × (enforce_limits 600000 90000 noon true (written 600000 90000 noon tables)
      ≡ ok (again, written 600000 90000 noon tables))
    × (again.transitions ≡ [])
    × (again.resets ≡ 0)
    × (again.schedule_repairs ≡ 0)
enforce_limits_twice_example =
    enforce_limits_twice 600000 90000 noon tables (written 600000 90000 noon tables)
      (outcome 600000 90000 noon tables) tables-IsKeyed transaction

transitions_le_pending_example :
    length (outcome 600000 90000 noon tables).transitions
    ≤ (outcome 600000 90000 noon tables).pending_apply
transitions_le_pending_example =
    transitions_le_pending 600000 90000 noon tables (written 600000 90000 noon tables)
      (outcome 600000 90000 noon tables) tables-IsKeyed transaction

abbrev owned : Answers
owned = record {
  enabled = true;
  lock_acquired = true;
  owned_in_transaction = true;
  owned_before_apply = true;
  owned_after_apply = true;
  owned_at_end = true;
}

abbrev clear_mark : User → User
clear_mark u = record u { needs_apply = false }

-- An application that clears the marks.
abbrev apply_all : Tables → Result Text ApplyStatus × Tables
apply_all db = (ok succeeded, record db { users = map clear_mark db.users })

healthy_run :
    (run_once Text apply_all 600000 90000 owned noon tables).result
    ≡ acquired healthy 1 1 1 (some succeeded)
unfolding run_once over_vpn.Enforcer.Run.after_transaction enforce_limits enforce_loop
    over_vpn.Enforcer.enforce_users over_vpn.Enforcer.enforce_user needs_update
    over_vpn.Enforcer.is_due over_vpn.Enforcer.status_changed enforced_status
    evaluate_enforced_status over_vpn.Enforcer.with_usage over_vpn.Base.◌+ℤ◌ get
    over_vpn.Enforcement.count_from over_vpn.Base.put text_eq over_vpn.Calendar.Walk.before
    over_vpn.Calendar.Walk.walk over_vpn.Calendar.civil over_vpn.Calendar.utc
    over_vpn.Enforcement.next_identity_limit_hold_until over_vpn.Enforcer.Run.finish
    over_vpn.Enforcer.hold_changed over_vpn.Enforcer.hold_data over_vpn.Enforcer.next_hold
    over_vpn.Enforcer.reset_data over_vpn.Enforcer.should_repair_schedule
    over_vpn.Enforcer.status_data updated_user over_vpn.UserDomain.calculate_next_reset_at
healthy_run = refl

run_once-applied_example :
    (some succeeded ≡ some succeeded)
    × ((apply_all (written 600000 90000 noon tables)).0 ≡ ok succeeded)
    × ((run_once Text apply_all 600000 90000 owned noon tables).tables
        ≡ (apply_all (written 600000 90000 noon tables)).1)
run_once-applied_example =
    run_once-applied Text apply_all 600000 90000 noon owned tables 1 1 1 (some succeeded)
      tables-IsKeyed healthy_run (omega arith)
