-- ===== src/CoreApply/Engine.antt =====
-- `applyEngine`: the outcome of one engine, and the loop over the engines.
use over_vpn.Base.{
  ℕ, ◌+◌, Bool, List, [], ◌∷◌, ◌++◌, Option, none, some, Text, codes, if◌then◌else◌, Result, ok,
  throw, ◌>>=◌,
}
use over_vpn.Schema.{CoreEngine, engine_name}
use over_vpn.Enforcer.Run.{ApplyStatus, failed}
use over_vpn.CoreApply.{DesiredState, EngineOutcome}

-- What a provider answers to `apply`.
pub record Applied : Type 0 where
  pub status : ApplyStatus
  pub desired_hash : Text
  pub previous_hash : Option Text
  pub error : Option Text
  pub rollback_outcome : Option Text
  pub applied_at : Option ℕ

-- What happens in the course of one engine: each call returns, or throws with a message.
pub record EngineAnswers : Type 0 where
  pub owned_at_start : Bool
  pub loaded : Result Text DesiredState
  pub rendered_hash : Result Text Text
  pub current_hash : Result Text (Option Text)
  pub applied_revision : Result Text (Option ℕ)
  pub validation_error : Result Text (Option Text)
  pub owned_before : Bool
  pub applied : Result Text Applied
  pub owned_after : Bool

abbrev pub owned : Bool → Result {0, 0} Text Unit
owned b = if b then ok tt else throw (codes "lock lost")

abbrev pub revision_after : Option ℕ → ℕ
revision_after none = 1
revision_after (some n) = n + 1

abbrev pub invalid_outcome :
    CoreEngine → Text → DesiredState → Text → Option Text → ℕ → Text → EngineOutcome
invalid_outcome engine path state hash current revision message = record {
  engine = engine;
  status = failed;
  hash = some hash;
  previous_hash = current;
  error = some (engine_name engine ++ codes " validation failed: " ++ message);
  rollback_outcome = some (codes "NOT_REQUIRED");
  applied_at = none;
  config_path = path;
  config_revision = some revision;
  state = some state;
  rendered_hash = some hash;
}

abbrev pub applied_outcome : CoreEngine → Text → DesiredState → Text → ℕ → Applied → EngineOutcome
applied_outcome engine path state hash revision a = record {
  engine = engine;
  status = a.status;
  hash = some a.desired_hash;
  previous_hash = a.previous_hash;
  error = a.error;
  rollback_outcome = a.rollback_outcome;
  applied_at = a.applied_at;
  config_path = path;
  config_revision = some revision;
  state = some state;
  rendered_hash = some hash;
}

abbrev pub thrown_outcome : CoreEngine → Text → Text → EngineOutcome
thrown_outcome engine path message = record {
  engine = engine;
  status = failed;
  hash = none;
  previous_hash = none;
  error = some (engine_name engine ++ codes " apply failed: " ++ message);
  rollback_outcome = some (codes "NOT_REQUIRED");
  applied_at = none;
  config_path = path;
  config_revision = none;
  state = none;
  rendered_hash = none;
}

abbrev pub validated :
    CoreEngine
    → Text
    → EngineAnswers
    → DesiredState
    → Text
    → Option Text
    → ℕ
    → Option Text
    → Result Text EngineOutcome
validated engine path a state hash current revision (some message) =
    ok (invalid_outcome engine path state hash current revision message)
validated engine path a state hash current revision none = owned a.owned_before >>= λ _.
    a.applied >>= λ applied.
    owned a.owned_after >>= λ _. ok (applied_outcome engine path state hash revision applied)

abbrev pub caught : CoreEngine → Text → Result Text EngineOutcome → EngineOutcome
caught engine path (ok o) = o
caught engine path (throw message) = thrown_outcome engine path message

-- `applyEngine`: what throws, the loss of the lock too, becomes a failure of the engine.
unfoldable pub apply_engine : CoreEngine → Text → EngineAnswers → EngineOutcome
apply_engine engine path a = caught engine path (
    a.loaded >>= λ state. a.rendered_hash >>= λ hash. a.current_hash >>= λ current.
    a.applied_revision >>= λ revision. a.validation_error >>= λ invalid.
    validated engine path a state hash current (revision_after revision) invalid)

-- The loop over the providers.
unfoldable pub apply_engines :
    (CoreEngine → Text) → List (CoreEngine × EngineAnswers) → Result Text (List EngineOutcome)
apply_engines paths [] = ok []
apply_engines paths ((engine, a) ∷ rest) = owned a.owned_at_start >>= λ _.
    apply_engines paths rest >>= λ more. ok (apply_engine engine (paths engine) a ∷ more)
