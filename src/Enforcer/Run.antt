-- ===== src/Enforcer/Run.antt =====
-- `runOnce` of the limit enforcer: the lock, the transaction, the application of the configuration,
-- the notifications and the verdict.
pub mod Applied
use over_vpn.Base.{
  ℕ, Bool, true, false, not, ◌&&◌, ◌||◌, List, [], ◌∷◌, filter, length, Option, none, some,
  if◌then◌else◌, ltb, Result, ok, throw,
}
use over_vpn.Schema.{UserStatus, expired, limited}
use over_vpn.Enforcement.Equal.{status_eq}
use over_vpn.Enforcer.{Tables, Outcome, StatusTransition, LockLost, enforce_limits}

-- `CoreApplyStatus`.
pub data ApplyStatus : Type 0 where
  pending applying succeeded partial_succeeded failed rolled_back : ApplyStatus

pub data Verdict : Type 0 where
  healthy degraded failed : Verdict

pub data EnforcementResult : Type 0 where
  not_acquired : EnforcementResult
  acquired :
      (verdict : Verdict) (evaluated status_changes resets : ℕ) (apply_status : Option ApplyStatus)
      → EnforcementResult

-- What the lock answers in the course of one run.
pub record Answers : Type 0 where
  pub enabled : Bool
  pub lock_acquired : Bool
  pub owned_in_transaction : Bool
  pub owned_before_apply : Bool
  pub owned_after_apply : Bool
  pub owned_at_end : Bool

-- A run's result, the users whose transition was notified, and the database.
pub record Run : Type 0 where
  pub result : EnforcementResult
  pub notified : List StatusTransition
  pub tables : Tables

abbrev pub failure : EnforcementResult
failure = acquired Verdict.failed 0 0 0 none

-- `applyStatus && applyStatus !== 'SUCCEEDED'`.
abbrev pub is_unapplied : Option ApplyStatus → Bool
is_unapplied none = false
is_unapplied (some succeeded) = false
is_unapplied (some _) = true

abbrev pub is_notified : StatusTransition → Bool
is_notified t = status_eq t.status expired || status_eq t.status limited

unfoldable pub finish : Answers → Outcome → Option ApplyStatus → Tables → Run
finish a out status db = record {
  result =
      if a.owned_at_end
      then acquired (if is_unapplied status then degraded else healthy) out.evaluated
          (length out.transitions) out.resets status
      else failure;
  notified = filter is_notified out.transitions;
  tables = db;
}

abbrev pub aborted : Tables → Run
aborted db = record { result = failure; notified = []; tables = db }

module _ (Thrown : Type 0) (apply_system : Tables → Result Thrown ApplyStatus × Tables) where
  abbrev pub after_apply : Answers → Outcome → Result Thrown ApplyStatus × Tables → Run
  after_apply a out (throw e, db) = aborted db
  after_apply a out (ok status, db) =
      if a.owned_after_apply then finish a out (some status) db else aborted db

  unfoldable pub after_transaction : Answers → Tables → Result LockLost (Outcome × Tables) → Run
  after_transaction a db (throw e) = aborted db
  after_transaction a db (ok (out, db')) =
      if ltb 0 out.pending_apply
      then if a.owned_before_apply then after_apply a out (apply_system db') else aborted db'
      else finish a out none db'

  unfoldable pub run_once : ℕ → ℕ → Answers → ℕ → Tables → Run
  run_once hold_ms timeout_ms a now db =
      if not a.enabled || not a.lock_acquired
      then record { result = not_acquired; notified = []; tables = db }
      else after_transaction a db (enforce_limits hold_ms timeout_ms now a.owned_in_transaction db)
