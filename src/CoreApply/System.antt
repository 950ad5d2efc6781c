-- ===== src/CoreApply/System.antt =====
-- `apply`, which goes to this host or to an agent, and `applySystem`, which goes to every proxy server.
use over_vpn.Base.{
  ℕ, Bool, true, false, not, List, [], ◌∷◌, ◌++◌, map, all, length, Option, none, some, Text, codes,
  text_eq, if◌then◌else◌, ltb, ◌==◌, Result, ok, throw, ◌>>=◌,
}
use over_vpn.Schema.{CoreEngine}
use over_vpn.Enforcer.Run.{ApplyStatus, succeeded, partial_succeeded, failed, rolled_back}
use over_vpn.CoreApply.{MarkTables, UserMark, ApplyRecord, Db, is_status, new_record}
use over_vpn.CoreApply.Verdict.{count_of, aggregate_error}
use over_vpn.CoreApply.Engine.{EngineAnswers}
use over_vpn.CoreApply.Local.{apply_local}
use over_vpn.CoreApply.Remote.{ProxyServer, Push, apply_via_agent}

-- What happens in the course of one application: the row of its proxy server, the instants, the
-- answers of the lock, of the engines and of the agent, and what others do to the marks.
pub record Call : Type 0 where
  pub intact : Bool
  pub found : Option ProxyServer
  pub record_id : Text
  pub started : ℕ
  pub completed : ℕ
  pub lock_acquired : Bool
  pub owned_at_end : Bool
  pub meanwhile : MarkTables → MarkTables
  pub engines : List (CoreEngine × EngineAnswers)
  pub loads : List (CoreEngine × Result Text (ℕ × Text))
  pub push : Result Text Push

pub record Summary : Type 0 where
  pub id : Text
  pub status : ApplyStatus
  pub error : Option Text

abbrev pub find_record : Text → List ApplyRecord → Option ApplyRecord
find_record id [] = none
find_record id (r ∷ rs) = if text_eq r.id id then some r else find_record id rs

-- `toSummary` of the record of an application, which is there.
abbrev pub summary_of : Text → Option ApplyRecord → Summary
summary_of id none = record { id = id; status = failed; error = none }
summary_of id (some r) = record { id = id; status = r.status; error = r.error_message }

abbrev pub summarized : Text → Db → Summary × Db
summarized id db = (summary_of id (find_record id db.records), db)

abbrev pub or_default : Option Text → Option Text → Option Text
or_default (some p) other = some p
or_default none other = other

abbrev pub has_url : Option Text → Bool
has_url none = false
has_url (some []) = false
has_url (some (c ∷ t)) = true

module _ (sha256 : Text → Text) (text_after : Text → Text → Bool) (paths : CoreEngine → Text) where
  abbrev pub local_call : Option Text → Call → Db → Result Text (Summary × Db)
  local_call proxy c db = ok (
      summarized c.record_id (
        apply_local sha256 text_after paths proxy c.record_id c.started c.completed c.lock_acquired
          c.owned_at_end c.meanwhile c.engines db))

  abbrev pub agent_call : ProxyServer → Call → Db → Result Text (Summary × Db)
  agent_call proxy c db =
      apply_via_agent sha256 text_after paths proxy c.record_id c.started c.completed c.meanwhile
        c.loads c.push db
      >>= λ after. ok (summarized c.record_id after)

  abbrev pub apply_to : Option Text → Option ProxyServer → Call → Db → Result Text (Summary × Db)
  apply_to none found c db = local_call none c db
  apply_to (some id) none c db = throw (codes "proxy_server_not_found")
  apply_to (some id) (some proxy) c db =
      if has_url proxy.agent_base_url then agent_call proxy c db else local_call (some id) c db

  -- `apply`; `default` is the local proxy server, if there is one.
  unfoldable pub apply : Option Text → Option Text → Call → Db → Result Text (Summary × Db)
  apply default proxy c db =
      if not c.intact
      then throw (codes "support integrity")
      else apply_to (or_default proxy default) c.found c db

  -- The record of an application of the system that threw.
  abbrev pub failed_call : Text → Call → Text → Db → Summary × Db
  failed_call proxy c message db = summarized c.record_id (record db {
    records =
        db.records
        ++ record (new_record c.record_id (some proxy) c.started) {
          status = failed;
          error_message = some message;
          completed_at = some c.completed;
        }
          ∷ [];
  })

  abbrev pub caught : Text → Call → Db → Result Text (Summary × Db) → Summary × Db
  caught proxy c db (ok done) = done
  caught proxy c db (throw message) = failed_call proxy c message db

  -- The loop over the proxy servers.
  unfoldable pub apply_each : Option Text → List (Text × Call) → Db → List Summary × Db
  apply_each default [] db = ([], db)
  apply_each default ((proxy, c) ∷ rest) db =
      let (summary, after) = caught proxy c db (apply default (some proxy) c db) in
      let (more, end) = apply_each default rest after in (summary ∷ more, end)

  -- `aggregateProxyApplySummaries`, of two summaries or more.
  unfoldable pub aggregate_status : List ApplyStatus → ApplyStatus
  aggregate_status statuses =
      if count_of succeeded statuses == length statuses
      then succeeded
      else if ltb 0 (count_of succeeded statuses)
      then partial_succeeded
      else if all (is_status rolled_back) statuses
      then rolled_back
      else failed

  unfoldable pub aggregate_summaries : Summary → List Summary → Summary
  aggregate_summaries primary [] = primary
  aggregate_summaries primary (s ∷ ss) = record primary {
    status = aggregate_status (map (λ x. x.status) (primary ∷ s ∷ ss));
    error = aggregate_error (map (λ x. x.error) (primary ∷ s ∷ ss));
  }

  -- `updateMany` of every user that waits.
  unfoldable pub unmark_users : List UserMark → List UserMark
  unmark_users = map λ u. if u.needs_apply then record u { needs_apply = false } else u

  abbrev pub is_succeeded : Summary → Bool
  is_succeeded s = is_status succeeded s.status

  -- The end of `applySystem`.
  abbrev pub settled : Summary → List Summary → Db → Summary × Db
  settled first more db = (
    aggregate_summaries first more,
    if all is_succeeded (first ∷ more)
        then record db { marks = record db.marks { users = unmark_users db.marks.users } }
        else db,
  )

  abbrev pub settle : List Summary × Db → Result Text (Summary × Db)
  settle ([], db) = throw (codes "aggregateProxyApplySummaries requires at least one summary")
  settle (first ∷ more, db) = ok (settled first more db)

  -- `applySystem`, over the proxy servers that are not disabled; `alone` is the call without any.
  unfoldable pub apply_system :
      Option Text → Call → List (Text × Call) → Db → Result Text (Summary × Db)
  apply_system default alone [] db = apply default none alone db
  apply_system default alone (c ∷ cs) db = settle (apply_each default (c ∷ cs) db)
