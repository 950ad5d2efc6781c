-- ===== src/CoreApply/Remote.antt =====
-- `applyViaAgent`: the configurations of a node are pushed to its agent.
use over_vpn.Base.{
  ℕ, max, Bool, false, ◌&&◌, ◌||◌, List, [], ◌∷◌, map, any, length, Option, none, some, Text, codes,
  text_eq, if◌then◌else◌, ◌==◌, Result, ok, throw, ◌>>=◌,
}
use over_vpn.Schema.{CoreEngine}
use over_vpn.Enforcer.Run.{succeeded, failed}
use over_vpn.CoreApply.{
  MarkTables, InboundMark, CoreStateRow, EngineResult, ApplyRecord, Db, engine_eq, upsert_state,
  update_record, begun, fail_record,
}
use over_vpn.CoreApply.Verdict.{composite_hash}

pub record ProxyServer : Type 0 where
  pub id : Text
  pub agent_base_url : Option Text
  pub node_token : Option Text
  pub enabled_engines : List CoreEngine

-- An engine of a push, with the revision of its state and the hash of its configuration.
pub record DesiredEngine : Type 0 where
  pub engine : CoreEngine
  pub desired_revision : ℕ
  pub config_hash : Text

pub record Push : Type 0 where
  pub succeeds : Bool
  pub error : Option Text
  pub config_hash : Option Text

-- The engines of the node: all, where it names none.
abbrev pub is_enabled : ProxyServer → CoreEngine → Bool
is_enabled proxy engine =
    length proxy.enabled_engines == 0 || any (engine_eq engine) proxy.enabled_engines

abbrev pub max_revision : List DesiredEngine → ℕ
max_revision [] = 0
max_revision (e ∷ es) = max e.desired_revision (max_revision es)

-- `buildAgentDesired`: the first state that cannot be loaded or rendered throws.
unfoldable pub build_agent_desired :
    ProxyServer → List (CoreEngine × Result Text (ℕ × Text)) → Result Text (List DesiredEngine)
build_agent_desired proxy [] = ok []
build_agent_desired proxy ((engine, load) ∷ rest) =
    if is_enabled proxy engine
    then (load >>= λ (revision, hash). build_agent_desired proxy rest >>= λ more.
        ok (record { engine = engine; desired_revision = revision; config_hash = hash } ∷ more))
    else build_agent_desired proxy rest

-- `updateMany` of the inbounds of an engine of the node.
unfoldable pub unmark_engine : Text → CoreEngine → List InboundMark → List InboundMark
unmark_engine proxy engine = map λ i.
    if text_eq i.proxy_server_id proxy && engine_eq i.engine engine && i.needs_apply
    then record i { needs_apply = false }
    else i

abbrev pub pushed_row : (CoreEngine → Text) → Text → Text → ℕ → ℕ → DesiredEngine → CoreStateRow
pushed_row paths proxy record_id revision completed e = record {
  proxy_server_id = some proxy;
  engine = e.engine;
  desired_revision = revision;
  applied_revision = revision;
  applied_config_hash = some e.config_hash;
  config_path = paths e.engine;
  last_apply_record_id = record_id;
  applied_at = some completed;
}

-- The transaction after a push that succeeded.
unfoldable pub write_pushed :
    (CoreEngine → Text) → Text → Text → ℕ → ℕ → List DesiredEngine → Db → Db
write_pushed paths proxy record_id revision completed [] db = db
write_pushed paths proxy record_id revision completed (e ∷ es) db =
    write_pushed paths proxy record_id revision completed es (record db {
      marks = record db.marks { inbounds = unmark_engine proxy e.engine db.marks.inbounds };
      core_states =
          upsert_state false (pushed_row paths proxy record_id revision completed e) db.core_states;
    })

abbrev pub pushed_result : Push → DesiredEngine → EngineResult
pushed_result push e = record {
  engine = e.engine;
  status = if push.succeeds then succeeded else failed;
  hash = some e.config_hash;
  previous_hash = none;
  error = if push.succeeds then none else push.error;
  rollback_outcome = some (codes "NOT_REQUIRED");
}

abbrev pub or_composite : Option Text → Text → Text
or_composite (some h) other = h
or_composite none other = other

module _ (sha256 : Text → Text) (text_after : Text → Text → Bool) (paths : CoreEngine → Text) where
  abbrev pub pushed_hash : Push → List DesiredEngine → Text
  pushed_hash push es =
      or_composite push.config_hash
        (composite_hash sha256 text_after (map (λ e. (e.engine, some e.config_hash)) es))

  abbrev pub finished : Push → List DesiredEngine → ℕ → ApplyRecord → ApplyRecord
  finished push es completed r = record r {
    status = if push.succeeds then succeeded else failed;
    desired_hash = some (pushed_hash push es);
    config_revision = some (max_revision es);
    error_message = push.error;
    applied_at = if push.succeeds then some completed else none;
    completed_at = some completed;
    engine_results = some (map (pushed_result push) es);
  }

  -- What follows the answer of the agent.
  unfoldable pub after_push : Text → Text → ℕ → List DesiredEngine → Push → Db → Db
  after_push proxy record_id completed es push db =
      let written =
        if push.succeeds
        then write_pushed paths proxy record_id (max_revision es) completed es db
        else db in
      record written {
        records = update_record record_id (finished push es completed) written.records;
      }

  abbrev pub pushed : Text → Text → ℕ → Result Text (List DesiredEngine × Push) → Db → Db
  pushed proxy record_id completed (throw message) db = fail_record record_id message completed db
  pushed proxy record_id completed (ok (es, push)) db =
      after_push proxy record_id completed es push db

  abbrev pub token_of : Option Text → Option Text
  token_of none = none
  token_of (some []) = none
  token_of (some (c ∷ t)) = some (c ∷ t)

  -- Without a token nothing is written.
  abbrev pub with_token : Option Text → Db → Result Text Db
  with_token none db = throw (codes "proxy_node_token_missing")
  with_token (some token) db = ok db

  -- `applyViaAgent`, with `meanwhile` what other requests do to the marks until the push is answered.
  unfoldable pub apply_via_agent :
      ProxyServer
      → Text
      → ℕ
      → ℕ
      → (MarkTables → MarkTables)
      → List (CoreEngine × Result Text (ℕ × Text))
      → Result Text Push
      → Db
      → Result Text Db
  apply_via_agent proxy record_id started completed meanwhile loads push db =
      with_token (token_of proxy.node_token) (
        pushed proxy.id record_id completed
          (build_agent_desired proxy loads >>= λ es. push >>= λ answer. ok (es, answer))
          (begun (some proxy.id) record_id started meanwhile db))
