-- ===== src/CoreApply/Tests.antt =====
-- The application of the configurations at concrete inputs.
use over_vpn.Base.{
  ℕ, Bool, true, false, List, [], ◌∷◌, map, Option, none, some, Text, codes, Result, ok, throw, ◌≡◌,
  inl, inr, refl, arith, All,
}
use over_vpn.Schema.{CoreEngine, sing_box, xray, engine_name}
use over_vpn.Enforcer.Run.{succeeded, failed}
use over_vpn.CoreApply.{
  UserMark, InboundMark, MarkTables, DesiredState, EngineOutcome, ApplyRecord, Db, is_status,
  new_record,
}
use over_vpn.CoreApply.Engine.{Applied, EngineAnswers, apply_engine}
use over_vpn.CoreApply.Local.{conclude}
use over_vpn.CoreApply.Remote.{DesiredEngine, Push, after_push}
use over_vpn.CoreApply.System.{Call, Summary, apply, apply_system}
use over_vpn.CoreApply.Marks.{user_stays_marked}
use over_vpn.CoreApply.Marks.Kept.{Member}
use over_vpn.CoreApply.Completed.{AllCompleted, is_final, apply_completes}
use over_vpn.CoreApply.Unmarked.{IsUnmarked, after_push-unmarks, apply_system-unmarks}

abbrev plain : Text → Text
plain t = t

abbrev in_order : Text → Text → Bool
in_order a b = false

abbrev paths : CoreEngine → Text
paths = engine_name

abbrev user : ℕ → Bool → UserMark
user revision waits = record { id = codes "u"; revision = revision; needs_apply = waits }

abbrev inbound : ℕ → Bool → InboundMark
inbound revision waits = record {
  id = codes "i";
  proxy_server_id = codes "p";
  engine = sing_box;
  revision = revision;
  needs_apply = waits;
}

abbrev db : Db
db = record {
  marks = record { users = user 2 true ∷ []; inbounds = inbound 2 true ∷ [] };
  core_states = [];
  records = [];
}

abbrev state : ℕ → DesiredState
state n = record {
  desired_revision = 1;
  inbound_revisions = record { id = codes "i"; revision = n } ∷ [];
  user_revisions = record { id = codes "u"; revision = n } ∷ [];
}

abbrev answers : ℕ → EngineAnswers
answers n = record {
  owned_at_start = true;
  loaded = ok (state n);
  rendered_hash = ok (codes "h");
  current_hash = ok none;
  applied_revision = ok none;
  validation_error = ok none;
  owned_before = true;
  applied = ok (record {
    status = succeeded;
    desired_hash = codes "h";
    previous_hash = none;
    error = none;
    rollback_outcome = none;
    applied_at = some 5;
  });
  owned_after = true;
}

abbrev outcome : CoreEngine → ℕ → EngineOutcome
outcome engine n = apply_engine engine (paths engine) (answers n)

-- A user who changed after the states were read still waits.
changed_waits :
    (conclude plain in_order none (codes "r") (outcome sing_box 1 ∷ []) 3 6 db).marks.users
    ≡ user 2 true ∷ []
unfolding conclude over_vpn.CoreApply.Verdict.aggregate_apply_status apply_engine
    over_vpn.CoreApply.Local.commit over_vpn.CoreApply.mark_user_revisions_applied
    over_vpn.CoreApply.unique_user_revisions over_vpn.CoreApply.unmark_user
    over_vpn.CoreApply.Local.write_engines over_vpn.Base.text_eq
changed_waits = refl

-- A user who changed between the states of two engines does not, although one has the old revision.
changed_between :
    (conclude plain in_order none
      (codes "r")
      (outcome sing_box 1 ∷ outcome xray 2 ∷ [])
      3
      6
      db).marks.users
    ≡ user 2 false ∷ []
unfolding conclude over_vpn.CoreApply.Verdict.aggregate_apply_status apply_engine
    over_vpn.CoreApply.Local.commit over_vpn.CoreApply.mark_user_revisions_applied
    over_vpn.CoreApply.unique_user_revisions over_vpn.Base.text_eq over_vpn.CoreApply.unmark_user
    over_vpn.CoreApply.Local.write_engines
changed_between = refl

user_stays_marked_example :
    Member
      (user 2 true)
      (conclude plain in_order none (codes "r") (outcome sing_box 1 ∷ []) 3 6 db).marks.users
unfolding apply_engine
user_stays_marked_example =
    user_stays_marked plain in_order none (codes "r") (outcome sing_box 1 ∷ []) 3 6 db (user 2 true)
      (inr (((λ e f. ground arith), tt), tt)) (inl refl)

abbrev call : Call
call = record {
  intact = true;
  found =
      some
        (record { id = codes "p"; agent_base_url = none; node_token = none; enabled_engines = [] });
  record_id = codes "r";
  started = 3;
  completed = 6;
  lock_acquired = true;
  owned_at_end = true;
  meanwhile = λ m. m;
  engines = (sing_box, answers 2) ∷ [];
  loads = [];
  push = ok (record { succeeds = true; error = none; config_hash = none });
}

abbrev unlocked : Call
unlocked = record call { lock_acquired = false }

abbrev held : ApplyRecord
held = record (new_record (codes "r") none 3) {
  status = failed;
  error_message = some (codes "lock held");
  completed_at = some 6;
}

abbrev refused : Summary
refused = record { id = codes "r"; status = failed; error = some (codes "lock held") }

abbrev after_refusal : Db
after_refusal = record db { records = held ∷ [] }

refuses : apply plain in_order paths none none unlocked db ≡ ok (refused, after_refusal)
unfolding apply over_vpn.CoreApply.Local.apply_local over_vpn.CoreApply.update_record
    over_vpn.Base.text_eq
refuses = refl

apply_completes_example : (is_final failed ≡ true) × AllCompleted (codes "r") 6 after_refusal
apply_completes_example =
    apply_completes plain in_order paths none none unlocked db after_refusal refused refuses

abbrev pushed_engine : DesiredEngine
pushed_engine = record { engine = sing_box; desired_revision = 1; config_hash = codes "h" }

abbrev good_push : Push
good_push = record { succeeds = true; error = none; config_hash = none }

after_push-unmarks_example :
    IsUnmarked
      (codes "p")
      sing_box
      (after_push plain in_order paths
        (codes "p")
        (codes "r")
        6
        (pushed_engine ∷ [])
        good_push
        db).marks.inbounds
after_push-unmarks_example =
    after_push-unmarks plain in_order paths (codes "p") (codes "r") 6 sing_box (pushed_engine ∷ [])
      good_push db refl (inl refl)

abbrev db_of : Result Text (Summary × Db) → Db
db_of (ok (s, after)) = after
db_of (throw message) = db

abbrev system_result : Result Text (Summary × Db)
system_result = apply_system plain in_order paths none call ((codes "p", call) ∷ []) db

abbrev applied_summary : Summary
applied_summary = record { id = codes "r"; status = succeeded; error = none }

applies : system_result ≡ ok (applied_summary, db_of system_result)
unfolding apply_system over_vpn.CoreApply.System.apply_each
    over_vpn.CoreApply.System.aggregate_summaries apply over_vpn.CoreApply.Local.apply_local
    over_vpn.CoreApply.Engine.apply_engines conclude
    over_vpn.CoreApply.Verdict.aggregate_apply_status apply_engine over_vpn.CoreApply.Local.commit
    over_vpn.CoreApply.update_record over_vpn.CoreApply.Local.write_engines over_vpn.Base.text_eq
    over_vpn.CoreApply.Verdict.aggregate_error
applies = refl

apply_system-unmarks_example : All (λ u. u.needs_apply ≡ false) (db_of system_result).marks.users
apply_system-unmarks_example =
    apply_system-unmarks plain in_order paths none call (codes "p", call) [] db
      (db_of system_result) applied_summary applies refl
