-- ===== src/Enforcer.antt =====
-- apps/api/src/workers/limit-enforcer.service.ts: one run of the limit enforcer. The rows of the
-- database are lists, a transaction that throws leaves them as they were, the answers of the lock
-- are arguments, and the application of the core configuration is a parameter.
pub mod Row
pub mod Hold
pub mod Table
pub mod Settled
pub mod Pending
pub mod Run
mod Tests
use over_vpn.Base.{
  ℕ, suc, ◌+◌, ◌-◌, Bool, true, false, not, ◌&&◌, ◌||◌, List, [], ◌∷◌, ◌++◌, map, filter, length,
  Option, none, some, is_some, Text, text_eq, get, if◌then◌else◌, leb, ℤ, pos, ◌+ℤ◌, Result, ok,
  throw,
}
use over_vpn.Schema.{User, UserStatus, disabled, UserStatusReason, ResetStrategy, no_reset}
use over_vpn.UserDomain.{is_past}
use over_vpn.Enforcement.{
  SessionIdentity, EnforcedStatus, count_identities_by_user, devices_of, over_device_limit,
  evaluate_enforced_status, next_identity_limit_hold_until, next_reset_after_enforcement,
}
use over_vpn.Enforcement.Equal.{status_eq, reason_eq, date_eq}

pub record OnlineSession : Type 0 where
  pub identity : SessionIdentity
  pub last_seen_at : ℕ
  pub disconnected_at : Option ℕ

pub record StatusTransition : Type 0 where
  pub user_id : Text
  pub username : Text
  pub previous_status : UserStatus
  pub status : UserStatus
  pub reason : Option UserStatusReason

-- An audit record, with the row before and after it.
pub data AuditEvent : Type 0 where
  system_traffic_reset : (before after : User) → AuditEvent
  system_user_status_change :
      (before : User) (enforced : EnforcedStatus) (hold_until : Option ℕ) (active_devices : ℕ)
      → AuditEvent

abbrev pub is_no_reset : ResetStrategy → Bool
is_no_reset no_reset = true
is_no_reset _ = false

unfoldable pub should_repair_schedule : User → Bool
should_repair_schedule u =
    (is_no_reset u.reset_strategy && is_some u.next_reset_at)
    || (not (is_no_reset u.reset_strategy) && not (is_some u.next_reset_at))

module _ (hold_ms now : ℕ) where
  unfoldable pub is_due : User → Bool
  is_due u = not (is_no_reset u.reset_strategy) && is_past u.next_reset_at now

  -- `{ ...user, usedUploadBytes, usedDownloadBytes }`.
  unfoldable pub with_usage : User → User
  with_usage u =
      if is_due u then record u { used_upload_bytes = pos 0; used_download_bytes = pos 0 } else u

  unfoldable pub enforced_status : User → ℕ → EnforcedStatus
  enforced_status u devices = evaluate_enforced_status (with_usage u) devices now

  unfoldable pub next_hold : User → ℕ → Option ℕ
  next_hold u devices =
      next_identity_limit_hold_until (enforced_status u devices)
        (over_device_limit u.device_limit devices) hold_ms now u.identity_limit_hold_until

  unfoldable pub hold_changed : User → ℕ → Bool
  hold_changed u devices = not (date_eq (next_hold u devices) u.identity_limit_hold_until)

  unfoldable pub status_changed : User → ℕ → Bool
  status_changed u devices =
      not (status_eq (enforced_status u devices).status u.status)
      || not (reason_eq (enforced_status u devices).status_reason u.status_reason)

  unfoldable pub needs_update : User → ℕ → Bool
  needs_update u devices =
      is_due u || should_repair_schedule u || status_changed u devices || hold_changed u devices

  -- The fields of `data`, written to the row that was read.
  unfoldable pub reset_data : User → User → User
  reset_data u row =
      if is_due u
      then record row {
        used_upload_bytes = pos 0;
        used_download_bytes = pos 0;
        accounting_epoch = row.accounting_epoch +ℤ pos 1;
        traffic_reset_at = some now;
        next_reset_at = next_reset_after_enforcement u.reset_strategy now;
      }
      else if should_repair_schedule u
      then record row { next_reset_at = next_reset_after_enforcement u.reset_strategy now }
      else row

  unfoldable pub status_data : User → ℕ → User → User
  status_data u devices row =
      if status_changed u devices
      then record row {
        status = (enforced_status u devices).status;
        status_reason = (enforced_status u devices).status_reason;
        disabled_at =
            if status_eq (enforced_status u devices).status disabled then u.disabled_at else none;
        revision = row.revision + 1;
        needs_apply = true;
      }
      else row

  unfoldable pub hold_data : User → ℕ → User → User
  hold_data u devices row =
      if hold_changed u devices
      then record row { identity_limit_hold_until = next_hold u devices }
      else row

  unfoldable pub updated_user : User → ℕ → User
  updated_user u devices = hold_data u devices (status_data u devices (reset_data u u))

-- `identities.get(user.id)?.devices.size ?? 0`.
abbrev pub active_devices : List (Text × List Text) → User → ℕ
active_devices identities u = length (devices_of (get u.id identities))

-- The tables that the enforcer touches.
pub record Tables : Type 0 where
  pub users : List User
  pub sessions : List OnlineSession
  pub audit : List AuditEvent

-- The variables of the loop over the users.
pub record Tally : Type 0 where
  pub users : List User
  pub audit : List AuditEvent
  pub transitions : List StatusTransition
  pub resets : ℕ
  pub schedule_repairs : ℕ

-- `tx.user.update`.
abbrev pub write_user : User → List User → List User
write_user updated = map λ row. if text_eq row.id updated.id then updated else row

module _ (hold_ms now : ℕ) where
  abbrev pub count_reset : User → User → Tally → Tally
  count_reset u updated t =
      if is_due hold_ms now u
      then record t {
        resets = t.resets + 1;
        audit = t.audit ++ system_traffic_reset u updated ∷ [];
      }
      else if should_repair_schedule u
      then record t { schedule_repairs = t.schedule_repairs + 1 }
      else t

  abbrev pub count_transition : User → ℕ → Tally → Tally
  count_transition u devices t =
      let enforced = enforced_status hold_ms now u devices in
      if status_changed hold_ms now u devices
      then record t {
        transitions =
            t.transitions
            ++ record {
              user_id = u.id;
              username = u.username;
              previous_status = u.status;
              status = enforced.status;
              reason = enforced.status_reason;
            }
              ∷ [];
        audit =
            t.audit
            ++ system_user_status_change u enforced (next_hold hold_ms now u devices) devices ∷ [];
      }
      else t

  -- The body of the loop over the users.
  unfoldable pub enforce_user : User → ℕ → Tally → Tally
  enforce_user u devices t =
      if not (needs_update hold_ms now u devices)
      then t
      else let updated = updated_user hold_ms now u devices in
        count_transition u devices
          (count_reset u updated (record t { users = write_user updated t.users }))

  unfoldable pub enforce_users : List (Text × List Text) → List User → Tally → Tally
  enforce_users identities [] t = t
  enforce_users identities (u ∷ rest) t =
      enforce_users identities rest (enforce_user u (active_devices identities u) t)

-- `findMany` of the users that are not deleted; the rows stand in the order of their ids.
abbrev pub is_live : User → Bool
is_live u = not (is_some u.deleted_at)

-- Of the sessions, those that are open and were seen since the cutoff.
abbrev pub online_identities : ℕ → ℕ → List OnlineSession → List SessionIdentity
online_identities timeout_ms now sessions =
    map (λ s. s.identity)
      (filter (λ s. not (is_some s.disconnected_at) && leb (now - timeout_ms) s.last_seen_at)
        sessions)

pub record Outcome : Type 0 where
  pub evaluated : ℕ
  pub transitions : List StatusTransition
  pub resets : ℕ
  pub schedule_repairs : ℕ
  pub pending_apply : ℕ

pub data LockLost : Type 0 where
  lock_lost : LockLost

module _ (hold_ms timeout_ms now : ℕ) where
  -- The loop of the transaction, over the rows as they were read.
  unfoldable pub enforce_loop : Tables → Tally
  enforce_loop db =
      enforce_users hold_ms now
        (count_identities_by_user (online_identities timeout_ms now db.sessions))
        (filter is_live db.users)
        (record {
          users = db.users;
          audit = db.audit;
          transitions = [];
          resets = 0;
          schedule_repairs = 0;
        })

  abbrev pub outcome : Tables → Outcome
  outcome db =
      let t = enforce_loop db in
      record {
        evaluated = length (filter is_live db.users);
        transitions = t.transitions;
        resets = t.resets;
        schedule_repairs = t.schedule_repairs;
        pending_apply = length (filter (λ u. u.needs_apply) t.users);
      }

  abbrev pub written : Tables → Tables
  written db =
      let t = enforce_loop db in record { users = t.users; sessions = db.sessions; audit = t.audit }

  -- The transaction; `owned` is the answer of `assertOwned.verify()` at its end.
  unfoldable pub enforce_limits : Bool → Tables → Result LockLost (Outcome × Tables)
  enforce_limits owned db = if not owned then throw lock_lost else ok (outcome db, written db)
