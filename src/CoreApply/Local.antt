-- ===== src/CoreApply/Local.antt =====
-- `applyLocal`: the engines of this host, one after the other, under the lock.
use over_vpn.Base.{
  ℕ, Bool, true, not, ◌&&◌, ◌||◌, List, [], ◌∷◌, map, filter, Option, none, some, Text, codes,
  text_eq, if◌then◌else◌, leb, Result, ok, throw,
}
use over_vpn.Schema.{CoreEngine, sing_box}
use over_vpn.Enforcer.Run.{ApplyStatus, pending, succeeded, failed, rolled_back}
use over_vpn.CoreApply.{
  MarkTables, DesiredState, CoreStateRow, EngineOutcome, EngineResult, ApplyRecord, Db, is_status,
  engine_eq, mark_user_revisions_applied, mark_inbound_revisions_applied, unique_user_revisions,
  upsert_state, update_record, begun, fail_record,
}
use over_vpn.CoreApply.Verdict.{
  aggregate_apply_status, aggregate_error, aggregate_rollback, composite_hash,
}
use over_vpn.CoreApply.Engine.{EngineAnswers, apply_engines}

abbrev pub stored_result : EngineOutcome → EngineResult
stored_result o = record {
  engine = o.engine;
  status = o.status;
  hash = o.hash;
  previous_hash = o.previous_hash;
  error = o.error;
  rollback_outcome = o.rollback_outcome;
}

abbrev pub or_hash : Option Text → Option Text → Option Text
or_hash (some h) other = some h
or_hash none other = other

abbrev pub is_succeeded : EngineOutcome → Bool
is_succeeded o = is_status succeeded o.status

abbrev pub first_outcome : List EngineOutcome → Option EngineOutcome
first_outcome [] = none
first_outcome (o ∷ os) = some o

abbrev pub outcome_of : CoreEngine → List EngineOutcome → Option EngineOutcome
outcome_of engine [] = none
outcome_of engine (o ∷ os) = if engine_eq o.engine engine then some o else outcome_of engine os

abbrev pub or_outcome : Option EngineOutcome → Option EngineOutcome → Option EngineOutcome
or_outcome (some o) other = some o
or_outcome none other = other

-- The outcome that stands for the whole: that of sing-box, or the first.
abbrev pub primary_of : List EngineOutcome → Option EngineOutcome
primary_of os = or_outcome (outcome_of sing_box os) (first_outcome os)

abbrev pub revision_of : Option EngineOutcome → Option ℕ
revision_of none = none
revision_of (some o) = o.config_revision

abbrev pub applied_at_of : Option EngineOutcome → Option ℕ
applied_at_of none = none
applied_at_of (some o) = o.applied_at

abbrev pub or_time : Option ℕ → ℕ → Option ℕ
or_time (some t) other = some t
or_time none other = some other

-- The rows of a succeeded engine.
abbrev pub core_row : Option Text → Text → EngineOutcome → DesiredState → Text → ℕ → CoreStateRow
core_row proxy record_id o state hash revision = record {
  proxy_server_id = proxy;
  engine = o.engine;
  desired_revision = state.desired_revision;
  applied_revision = revision;
  applied_config_hash = some hash;
  config_path = o.config_path;
  last_apply_record_id = record_id;
  applied_at = o.applied_at;
}

abbrev pub with_proxy_row :
    Option Text
    → Text
    → EngineOutcome
    → DesiredState
    → Text
    → ℕ
    → List CoreStateRow
    → List CoreStateRow
with_proxy_row none record_id o state hash revision rows = rows
with_proxy_row (some proxy) record_id o state hash revision rows =
    upsert_state true (core_row (some proxy) record_id o state hash revision) rows

abbrev pub write_engine :
    Option Text → Text → EngineOutcome → Option DesiredState → Option Text → Option ℕ → Db → Db
write_engine proxy record_id o (some state) (some hash) (some revision) db = record db {
  marks = record db.marks {
    inbounds = mark_inbound_revisions_applied state.inbound_revisions db.marks.inbounds;
  };
  core_states =
      with_proxy_row proxy record_id o state hash revision
        (upsert_state true (core_row none record_id o state hash revision) db.core_states);
}
write_engine proxy record_id o none hash revision db = db
write_engine proxy record_id o (some state) none revision db = db
write_engine proxy record_id o (some state) (some hash) none db = db

-- The loop over the engines that succeeded.
unfoldable pub write_engines : Option Text → Text → List EngineOutcome → Db → Db
write_engines proxy record_id [] db = db
write_engines proxy record_id (o ∷ os) db =
    write_engines proxy record_id os
      (write_engine proxy record_id o o.state o.rendered_hash o.config_revision db)

module _ (sha256 : Text → Text) (text_after : Text → Text → Bool) where
  abbrev pub desired_hash : List EngineOutcome → Text
  desired_hash os =
      composite_hash sha256 text_after (map (λ o. (o.engine, or_hash o.rendered_hash o.hash)) os)

  abbrev pub previous_hash : List EngineOutcome → Text
  previous_hash os = composite_hash sha256 text_after (map (λ o. (o.engine, o.previous_hash)) os)

  abbrev pub status_of : List EngineOutcome → ApplyStatus
  status_of os = aggregate_apply_status (map (λ o. o.status) os)

  -- What every end writes in the record.
  abbrev pub described : List EngineOutcome → ℕ → Option ℕ → ApplyRecord → ApplyRecord
  described os completed applied r = record r {
    status = status_of os;
    desired_hash = some (desired_hash os);
    previous_hash = some (previous_hash os);
    config_revision = revision_of (primary_of os);
    error_message = aggregate_error (map (λ o. o.error) os);
    rollback_outcome = aggregate_rollback (map (λ o. o.rollback_outcome) os);
    engine_results = some (map stored_result os);
    applied_at = applied;
    completed_at = some completed;
  }

  -- The applications that waited are done with this one.
  abbrev pub reconcile : Text → List EngineOutcome → ℕ → ℕ → List ApplyRecord → List ApplyRecord
  reconcile id os started completed = map λ r.
      if not (text_eq r.id id) && is_status pending r.status && leb r.created_at started
      then record r {
        status = succeeded;
        desired_hash = some (desired_hash os);
        previous_hash = some (previous_hash os);
        config_revision = revision_of (primary_of os);
        applied_at = or_time (applied_at_of (primary_of os)) completed;
        completed_at = some completed;
        reconciled_by = some id;
      }
      else r

  abbrev pub all_succeeded : Text → List EngineOutcome → ℕ → ℕ → Db → Db
  all_succeeded id os started completed db = record db {
    marks = record db.marks {
      users =
          mark_user_revisions_applied
            (unique_user_revisions (map (λ o. o.state) (filter is_succeeded os))) db.marks.users;
    };
    records = reconcile id os started completed db.records;
  }

  -- The transaction at the end.
  unfoldable pub commit : Option Text → Text → List EngineOutcome → ℕ → ℕ → Db → Db
  commit proxy id os started completed db =
      let whole = is_status succeeded (status_of os) in
      let written = write_engines proxy id (filter is_succeeded os) db in
      let marked = if whole then all_succeeded id os started completed written else written in
      record marked {
        records =
            update_record id
              (described os completed (
                if whole
                then or_time (applied_at_of (primary_of os)) completed
                else applied_at_of (first_outcome (filter is_succeeded os))))
              marked.records;
      }

  -- What follows the loop.
  unfoldable pub conclude : Option Text → Text → List EngineOutcome → ℕ → ℕ → Db → Db
  conclude proxy id os started completed db =
      if is_status failed (status_of os) || is_status rolled_back (status_of os)
      then record db { records = update_record id (described os completed none) db.records }
      else commit proxy id os started completed db

  -- The locked part, and its end; `meanwhile` is what other requests do to the marks until then.
  abbrev pub locked : Option Text → Text → ℕ → ℕ → Bool → Result Text (List EngineOutcome) → Db → Db
  locked proxy id started completed owned_at_end (throw message) db =
      fail_record id message completed db
  locked proxy id started completed owned_at_end (ok os) db =
      let done = conclude proxy id os started completed db in
      if owned_at_end then done else fail_record id (codes "lock lost") completed done

  -- `applyLocal`
  unfoldable pub apply_local :
      (CoreEngine → Text)
      → Option Text
      → Text
      → ℕ
      → ℕ
      → Bool
      → Bool
      → (MarkTables → MarkTables)
      → List (CoreEngine × EngineAnswers)
      → Db
      → Db
  apply_local paths proxy id started completed lock_acquired owned_at_end meanwhile engines db =
      let started_db = begun proxy id started meanwhile db in
      if not lock_acquired
      then fail_record id (codes "lock held") completed started_db
      else locked proxy id started completed owned_at_end (apply_engines paths engines) started_db
