-- ===== src/CoreApply.antt =====
-- apps/api/src/core/core-apply.service.ts: the rows that an application of the configurations writes,
-- and what it makes of the outcomes of the engines. Differences of configurations, paths of records,
-- the audit, the log and the notifications are left out.
pub mod Verdict
pub mod Engine
pub mod Local
pub mod Remote
pub mod System
pub mod Marks
pub mod Completed
pub mod Unmarked
mod Tests
use over_vpn.Base.{
  ℕ, suc, ◌+◌, Bool, true, false, not, ◌&&◌, ◌||◌, List, [], ◌∷◌, ◌++◌, map, filter, any, all,
  length, Option, none, some, is_some, Text, codes, text_eq, if◌then◌else◌, ltb, leb, ◌==◌, sort,
}
use over_vpn.Schema.{CoreEngine, engine_name}
use over_vpn.Enforcer.Run.{
  ApplyStatus, pending, applying, succeeded, partial_succeeded, failed, rolled_back,
}

pub record Revision : Type 0 where
  pub id : Text
  pub revision : ℕ

-- The columns of users and inbounds that an application reads and writes.
pub record UserMark : Type 0 where
  pub id : Text
  pub revision : ℕ
  pub needs_apply : Bool

pub record InboundMark : Type 0 where
  pub id : Text
  pub proxy_server_id : Text
  pub engine : CoreEngine
  pub revision : ℕ
  pub needs_apply : Bool

pub record MarkTables : Type 0 where
  pub users : List UserMark
  pub inbounds : List InboundMark

-- What an engine should run: the rows that its configuration comes from.
pub record DesiredState : Type 0 where
  pub desired_revision : ℕ
  pub inbound_revisions : List Revision
  pub user_revisions : List Revision

-- A row of `core_state`, or of `proxy_core_state`, which has a proxy server.
pub record CoreStateRow : Type 0 where
  pub proxy_server_id : Option Text
  pub engine : CoreEngine
  pub desired_revision : ℕ
  pub applied_revision : ℕ
  pub applied_config_hash : Option Text
  pub config_path : Text
  pub last_apply_record_id : Text
  pub applied_at : Option ℕ

pub record EngineOutcome : Type 0 where
  pub engine : CoreEngine
  pub status : ApplyStatus
  pub hash : Option Text
  pub previous_hash : Option Text
  pub error : Option Text
  pub rollback_outcome : Option Text
  pub applied_at : Option ℕ
  pub config_path : Text
  pub config_revision : Option ℕ
  pub state : Option DesiredState
  pub rendered_hash : Option Text

-- What a record stores of an engine.
pub record EngineResult : Type 0 where
  pub engine : CoreEngine
  pub status : ApplyStatus
  pub hash : Option Text
  pub previous_hash : Option Text
  pub error : Option Text
  pub rollback_outcome : Option Text

pub record ApplyRecord : Type 0 where
  pub id : Text
  pub status : ApplyStatus
  pub proxy_server_id : Option Text
  pub desired_hash : Option Text
  pub previous_hash : Option Text
  pub config_revision : Option ℕ
  pub error_message : Option Text
  pub rollback_outcome : Option Text
  pub engine_results : Option (List EngineResult)
  pub reconciled_by : Option Text
  pub created_at : ℕ
  pub applied_at : Option ℕ
  pub completed_at : Option ℕ

pub record Db : Type 0 where
  pub marks : MarkTables
  pub core_states : List CoreStateRow
  pub records : List ApplyRecord

abbrev pub is_status : ApplyStatus → ApplyStatus → Bool
is_status succeeded succeeded = true
is_status rolled_back rolled_back = true
is_status failed failed = true
is_status pending pending = true
is_status applying applying = true
is_status partial_succeeded partial_succeeded = true
is_status _ _ = false

abbrev pub engine_eq : CoreEngine → CoreEngine → Bool
engine_eq a b = text_eq (engine_name a) (engine_name b)

-- `updateMany` of a user at a revision.
unfoldable pub unmark_user : Revision → List UserMark → List UserMark
unmark_user r = map λ u.
    if text_eq u.id r.id && (u.revision == r.revision) then record u { needs_apply = false } else u

-- `markUserRevisionsApplied`
unfoldable pub mark_user_revisions_applied : List Revision → List UserMark → List UserMark
mark_user_revisions_applied [] users = users
mark_user_revisions_applied (r ∷ rs) users = mark_user_revisions_applied rs (unmark_user r users)

unfoldable pub unmark_inbound : Revision → List InboundMark → List InboundMark
unmark_inbound r = map λ i.
    if text_eq i.id r.id && (i.revision == r.revision) then record i { needs_apply = false } else i

-- `markInboundRevisionsApplied`
unfoldable pub mark_inbound_revisions_applied : List Revision → List InboundMark → List InboundMark
mark_inbound_revisions_applied [] inbounds = inbounds
mark_inbound_revisions_applied (r ∷ rs) inbounds =
    mark_inbound_revisions_applied rs (unmark_inbound r inbounds)

-- `Map.set`
abbrev pub set_revision : Revision → List Revision → List Revision
set_revision r [] = r ∷ []
set_revision r (s ∷ ss) = if text_eq s.id r.id then r ∷ ss else s ∷ set_revision r ss

abbrev pub set_revisions : List Revision → List Revision → List Revision
set_revisions [] into = into
set_revisions (r ∷ rs) into = set_revisions rs (set_revision r into)

abbrev pub collect_revisions : List (Option DesiredState) → List Revision → List Revision
collect_revisions [] into = into
collect_revisions (none ∷ states) into = collect_revisions states into
collect_revisions (some s ∷ states) into =
    collect_revisions states (set_revisions s.user_revisions into)

-- `uniqueUserRevisions`: the last state that names a user gives the revision. The order of the result,
-- which is only written row by row, is left out.
unfoldable pub unique_user_revisions : List (Option DesiredState) → List Revision
unique_user_revisions states = collect_revisions states []

abbrev pub same_proxy : Option Text → Option Text → Bool
same_proxy none none = true
same_proxy (some a) (some b) = text_eq a b
same_proxy _ _ = false

-- `upsert` of the state of an engine; an update keeps the desired revision where `keep` says so.
unfoldable pub upsert_state : Bool → CoreStateRow → List CoreStateRow → List CoreStateRow
upsert_state keep row [] = row ∷ []
upsert_state keep row (r ∷ rs) =
    if engine_eq r.engine row.engine && same_proxy r.proxy_server_id row.proxy_server_id
    then (if keep then record row { desired_revision = r.desired_revision } else row) ∷ rs
    else r ∷ upsert_state keep row rs

-- `update` of the record of an application.
unfoldable pub update_record :
    Text → (ApplyRecord → ApplyRecord) → List ApplyRecord → List ApplyRecord
update_record id f = map λ r. if text_eq r.id id then f r else r

-- A record of an application that begins.
abbrev pub new_record : Text → Option Text → ℕ → ApplyRecord
new_record id proxy now = record {
  id = id;
  status = applying;
  proxy_server_id = proxy;
  desired_hash = none;
  previous_hash = none;
  config_revision = none;
  error_message = none;
  rollback_outcome = none;
  engine_results = none;
  reconciled_by = none;
  created_at = now;
  applied_at = none;
  completed_at = none;
}

-- An application begins; `meanwhile` is what other requests do to the marks until its end.
abbrev pub begun : Option Text → Text → ℕ → (MarkTables → MarkTables) → Db → Db
begun proxy id now meanwhile db = record db {
  marks = meanwhile db.marks;
  records = db.records ++ new_record id proxy now ∷ [];
}

-- The record of an application that threw.
abbrev pub fail_record : Text → Text → ℕ → Db → Db
fail_record id message now db = record db {
  records =
      update_record id
        (λ r. record r { status = failed; error_message = some message; completed_at = some now })
        db.records;
}
