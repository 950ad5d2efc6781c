-- ===== src/Agent/Service.antt =====
-- `apply` and `reloadAllKnown` of apps/agent/src/core/apply.ts: all engines of a desired state, one
-- after the other. An engine's configuration comes serialized.
pub mod Revision
use over_vpn.Base.{
  ℕ, Bool, true, false, ◌&&◌, List, [], ◌∷◌, ◌++◌, Option, none, some, Text, text_eq, if◌then◌else◌,
  Result, ok, throw,
}
use over_vpn.Schema.{CoreEngine, engine_name}
use over_vpn.Agent.{ApplyError, World, Step, EnginePaths, apply_engine, reload_engine}

pub record EngineState : Type 0 where
  pub engine : CoreEngine
  pub enabled : Bool
  pub config : Text
  pub config_hash : Option Text

pub record ApplyRequest : Type 0 where
  pub revision : ℕ
  pub engines : List EngineState

pub record EngineResult : Type 0 where
  pub engine : CoreEngine
  pub success : Bool
  pub error : Option ApplyError

pub record ApplyResult : Type 0 where
  pub revision : ℕ
  pub success : Bool
  pub config_hash : Option Text
  pub engine_results : List EngineResult
  pub error : Option ApplyError

-- The fields of `ApplyService`.
pub record Service : Type 0 where
  pub applied_revision : ℕ
  pub last_config_hashes : List (CoreEngine × Text)

-- The variables of the loop, and the world.
pub record Progress : Type 0 where
  pub engine_results : List EngineResult
  pub overall_success : Bool
  pub first_error : Option ApplyError
  pub last_hash : Option Text
  pub hashes : List (CoreEngine × Text)
  pub world : World

-- `Map.set`.
abbrev pub set_hash : CoreEngine → Text → List (CoreEngine × Text) → List (CoreEngine × Text)
set_hash e hash [] = (e, hash) ∷ []
set_hash e hash ((d, old) ∷ rest) =
    if text_eq (engine_name d) (engine_name e)
    then (e, hash) ∷ rest
    else (d, old) ∷ set_hash e hash rest

-- `firstError ??= message`.
abbrev pub first_of : Option ApplyError → ApplyError → Option ApplyError
first_of none e = some e
first_of (some first) e = some first

abbrev pub add_result : CoreEngine → Bool → Option ApplyError → Progress → Progress
add_result engine success error p = record p {
  engine_results =
      p.engine_results ++ record { engine = engine; success = success; error = error } ∷ [];
}

-- What the loop makes of the outcome of an engine.
abbrev pub record_applied : CoreEngine → Step Text → Progress → Progress
record_applied engine (ok hash, w) p =
    add_result engine true none
      (record p { hashes = set_hash engine hash p.hashes; last_hash = some hash; world = w })
record_applied engine (throw e, w) p =
    add_result engine false (some e)
      (record p { overall_success = false; first_error = first_of p.first_error e; world = w })

abbrev pub record_reloaded : CoreEngine → Step Unit → Progress → Progress
record_reloaded engine (ok _, w) p = add_result engine true none (record p { world = w })
record_reloaded engine (throw e, w) p =
    add_result engine false (some e)
      (record p { overall_success = false; first_error = first_of p.first_error e; world = w })

abbrev pub start : List (CoreEngine × Text) → World → Progress
start hashes w = record {
  engine_results = [];
  overall_success = true;
  first_error = none;
  last_hash = none;
  hashes = hashes;
  world = w;
}

module _ (sha256 : Text → Text) (skip_reload : Bool) (paths : CoreEngine → EnginePaths) where
  abbrev pub apply_one : EngineState → Progress → Progress
  apply_one s p =
      if s.enabled
      then record_applied s.engine
          (apply_engine sha256 skip_reload (paths s.engine) s.config s.config_hash p.world) p
      else add_result s.engine true none p

  unfoldable pub apply_engines : List EngineState → Progress → Progress
  apply_engines [] p = p
  apply_engines (s ∷ rest) p = apply_engines rest (apply_one s p)

  -- `apply`.
  unfoldable pub apply : ApplyRequest → Service → World → ApplyResult × Service × World
  apply desired a w =
      let p = apply_engines desired.engines (start a.last_config_hashes w) in
      (
        record {
          revision = desired.revision;
          success = p.overall_success;
          config_hash = p.last_hash;
          engine_results = p.engine_results;
          error = p.first_error;
        },
        record {
          applied_revision = if p.overall_success then desired.revision else a.applied_revision;
          last_config_hashes = p.hashes;
        },
        p.world,
      )

  unfoldable pub reload_engines : List (CoreEngine × Text) → Progress → Progress
  reload_engines [] p = p
  reload_engines ((engine, hash) ∷ rest) p =
      reload_engines rest
        (record_reloaded engine (reload_engine sha256 skip_reload (paths engine) hash p.world) p)

  -- `reloadAllKnown`.
  unfoldable pub reload_all_known : Service → World → Progress
  reload_all_known a w = reload_engines a.last_config_hashes (start a.last_config_hashes w)
