-- ===== src/Agent/Service/Revision.antt =====
-- What the agent reports of an application, and when it takes the new revision.
use over_vpn.Base.{
  Bool, true, false, not, ◌&&◌, List, [], ◌∷◌, ◌++◌, map, all, none, some, is_some, Text,
  if◌then◌else◌, ok, throw, ◌≡◌, refl, arith, Bool-cases, inl, inr, ap, ◌∙◌, sym,
}
use mathlib.Core.List.{append-nil, append_assoc}
use over_vpn.Schema.{CoreEngine}
use over_vpn.Agent.{World, Step, EnginePaths, apply_engine}
use over_vpn.Agent.Service.{
  EngineState, EngineResult, ApplyRequest, Service, Progress, record_applied, start, apply_one,
  apply_engines, apply,
}

-- The loop's flag and first error agree with the results that it has gathered.
abbrev IsConsistent : Progress → Type 0
IsConsistent p =
    (p.overall_success ≡ all (λ r. r.success) p.engine_results)
    × (is_some p.first_error ≡ not p.overall_success)

all-snoc :
    (results : List EngineResult) (r : EngineResult)
    → all (λ r. r.success) (results ++ r ∷ []) ≡ (all (λ r. r.success) results && r.success)
all-snoc [] r = ground arith
all-snoc (s ∷ results) r = ground (arith, all-snoc results r)

map-snoc :
    (results : List EngineResult) (r : EngineResult)
    → map (λ r. r.engine) (results ++ r ∷ []) ≡ map (λ r. r.engine) results ++ r.engine ∷ []
map-snoc [] r = refl
map-snoc (s ∷ results) r = ap (λ es. s.engine ∷ es) (map-snoc results r)

record_applied-IsConsistent :
    (engine : CoreEngine) (outcome : Step Text) (p : Progress)
    → IsConsistent p
    → IsConsistent (record_applied engine outcome p)
record_applied-IsConsistent engine (ok hash, w) p (flag, error) = (
  ground
      (arith, all-snoc p.engine_results (record { engine = engine; success = true; error = none })),
  error,
)
record_applied-IsConsistent engine (throw e, w) p (flag, error) = (
  ground (
    arith,
    all-snoc p.engine_results (record { engine = engine; success = false; error = some e }),
  ),
  ground arith,
)

record_applied-engines :
    (engine : CoreEngine) (outcome : Step Text) (p : Progress)
    → map (λ r. r.engine) (record_applied engine outcome p).engine_results
      ≡ map (λ r. r.engine) p.engine_results ++ engine ∷ []
record_applied-engines engine (ok hash, w) p = map-snoc p.engine_results _
record_applied-engines engine (throw e, w) p = map-snoc p.engine_results _

module _ (sha256 : Text → Text) (skip_reload : Bool) (paths : CoreEngine → EnginePaths) where
  apply_one-IsConsistent :
      (s : EngineState) (p : Progress)
      → IsConsistent p
      → IsConsistent (apply_one sha256 skip_reload paths s p)
  apply_one-IsConsistent s p (flag, error) = elim (Bool-cases s.enabled) [
    | inl on ↦ simp on (
        record_applied-IsConsistent s.engine
          (apply_engine sha256 skip_reload (paths s.engine) s.config s.config_hash p.world) p
          (flag, error))
    | inr off ↦ simp off (
      ground (
        arith,
        all-snoc p.engine_results (record { engine = s.engine; success = true; error = none }),
      ),
      error,
    )
  ]

  apply_one-engines :
      (s : EngineState) (p : Progress)
      → map (λ r. r.engine) (apply_one sha256 skip_reload paths s p).engine_results
        ≡ map (λ r. r.engine) p.engine_results ++ s.engine ∷ []
  apply_one-engines s p = elim (Bool-cases s.enabled) [
    | inl on ↦ simp on (
        record_applied-engines s.engine
          (apply_engine sha256 skip_reload (paths s.engine) s.config s.config_hash p.world) p)
    | inr off ↦ simp off (map-snoc p.engine_results _)
  ]

  apply_engines-IsConsistent :
      (ss : List EngineState) (p : Progress)
      → IsConsistent p
      → IsConsistent (apply_engines sha256 skip_reload paths ss p)
  unfolding apply_engines
  apply_engines-IsConsistent [] p c = c
  apply_engines-IsConsistent (s ∷ ss) p c =
      apply_engines-IsConsistent ss (apply_one sha256 skip_reload paths s p)
        (apply_one-IsConsistent s p c)

  apply_engines-engines :
      (ss : List EngineState) (p : Progress)
      → map (λ r. r.engine) (apply_engines sha256 skip_reload paths ss p).engine_results
        ≡ map (λ r. r.engine) p.engine_results ++ map (λ s. s.engine) ss
  unfolding apply_engines
  apply_engines-engines [] p = sym (append-nil (map (λ r. r.engine) p.engine_results))
  apply_engines-engines (s ∷ ss) p =
      apply_engines-engines ss (apply_one sha256 skip_reload paths s p)
      ∙ ap (λ es. es ++ map (λ t. t.engine) ss) (apply_one-engines s p)
      ∙ append_assoc (map (λ r. r.engine) p.engine_results) (s.engine ∷ []) (map (λ t. t.engine) ss)

  -- An application reports the engines in the order that is desired, succeeds exactly when each of
  -- them does, has an error exactly when it fails, and takes the desired revision exactly when it
  -- succeeds; otherwise the revision stays.
  pub apply-reports :
      (desired : ApplyRequest) (a : Service) (w : World)
      → let (result, a', w') = apply sha256 skip_reload paths desired a w in
        (map (λ r. r.engine) result.engine_results ≡ map (λ s. s.engine) desired.engines)
        × (result.success ≡ all (λ r. r.success) result.engine_results)
        × (is_some result.error ≡ not result.success)
        × (a'.applied_revision ≡ (
            if all (λ r. r.success) result.engine_results
            then desired.revision
            else a.applied_revision))
  unfolding apply
  apply-reports desired a w =
      let (flag, error) =
        apply_engines-IsConsistent desired.engines (start a.last_config_hashes w) (refl, refl) in
      (
        apply_engines-engines desired.engines (start a.last_config_hashes w),
        flag,
        error,
        ap (λ b. if b then desired.revision else a.applied_revision) flag,
      )
