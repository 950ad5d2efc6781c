-- ===== src/Agent/Tests.antt =====
-- Installations of the agent at concrete inputs.
use over_vpn.Base.{
  ℕ, zero, suc, ◌≡◌, ◌≢◌, ◌⊎◌, refl, arith, Bool, true, false, not, List, [], ◌∷◌, ◌++◌, none, some,
  Option, is_some, all, map, Text, codes, get, put, ok, throw, if◌then◌else◌,
}
use over_vpn.Schema.{CoreEngine, sing_box, xray}
use over_vpn.Agent.{
  ApplyError, rejected, Reading, unreadable, acknowledged, Wait, World, EnginePaths, is_filled,
  is_hash, apply_engine, hash_of, wait_for, timed_out,
}
use over_vpn.Agent.Install.{AreApart, calm, apply_engine_atomic}
use over_vpn.Agent.Service.{EngineState, ApplyRequest, Service, apply}
use over_vpn.Agent.Service.Revision.{apply-reports}

abbrev repeat : ℕ → ℕ → Text
repeat zero c = []
repeat (suc n) c = c ∷ repeat n c

-- A hash with the form of a real one.
abbrev pub sample_hash : Text → Text
sample_hash t = repeat 64 97

abbrev paths : EnginePaths
paths = record {
  config_path = codes "c";
  candidate_path = codes "n";
  last_known_good_path = codes "l";
  reload_request_path = codes "r";
}

paths-AreApart : AreApart paths
paths-AreApart = record {
  candidate = λ e. absurd (ground arith);
  last_known_good = λ e. absurd (ground arith);
  reload_request = λ e. absurd (ground arith);
  kept_apart = λ e. absurd (ground arith);
}

abbrev pub old_files : List (Text × Text)
old_files = (codes "c", codes "old") ∷ []

old_there : get (codes "c") old_files ≡ some (codes "old")
unfolding get over_vpn.Base.text_eq
old_there = refl

-- The sidecar first answers an older request, then rejects this one.
abbrev pub rejecting : List Wait
rejecting =
    record {
      request_id = codes "1";
      readings =
          unreadable
          ∷ acknowledged (codes "0") (sample_hash []) (codes "ok")
          ∷ acknowledged (codes "1") (sample_hash []) (codes "no")
          ∷ [];
    }
    ∷ []

late_acknowledgement :
    wait_for
      (codes "1")
      (codes "h")
      (unreadable ∷ acknowledged (codes "1") (codes "h") (codes "ok") ∷ [])
    ≡ ok tt
unfolding wait_for over_vpn.Base.text_eq
late_acknowledgement = refl

rejected_restored :
    get
      (codes "c")
      (apply_engine sample_hash false paths (codes "new") none (calm old_files rejecting)).1.files
    ≡ some (codes "old")
unfolding get apply_engine over_vpn.Agent.recover over_vpn.Agent.install over_vpn.Base.text_eq put
    over_vpn.Agent.reload_engine over_vpn.Agent.request_reload wait_for over_vpn.Agent.roll_back
rejected_restored = refl

apply_engine_atomic_example :
    let (r, w) =
      apply_engine sample_hash false paths (codes "new") none (calm old_files rejecting) in
    ((r ≡ ok (hash_of sample_hash false paths (codes "new") none))
      × (get (codes "c") w.files ≡ some (codes "new")))
    ⊎ ((e : ApplyError) × (r ≡ throw e) × (get (codes "c") w.files ≡ some (codes "old")))
apply_engine_atomic_example =
    apply_engine_atomic sample_hash false paths paths-AreApart (codes "new") (codes "old") none
      old_files rejecting old_there refl refl

abbrev pub desired : ApplyRequest
desired = record {
  revision = 9;
  engines =
      record { engine = sing_box; enabled = true; config = codes "new"; config_hash = none }
      ∷ record { engine = xray; enabled = false; config = []; config_hash = none }
      ∷ [];
}

abbrev pub fresh : Service
fresh = record { applied_revision = 4; last_config_hashes = [] }

abbrev pub same_paths : CoreEngine → EnginePaths
same_paths e = paths

kept_revision :
    (apply sample_hash false same_paths desired fresh (calm old_files rejecting)).1.applied_revision
    ≡ 4
unfolding apply over_vpn.Agent.Service.apply_engines apply_engine over_vpn.Agent.recover
    over_vpn.Agent.install get over_vpn.Base.text_eq put over_vpn.Agent.reload_engine
    over_vpn.Agent.request_reload wait_for
kept_revision = refl

apply-reports_example :
    let (result, a', w') =
      apply sample_hash false same_paths desired fresh (calm old_files rejecting) in
    (map (λ r. r.engine) result.engine_results ≡ map (λ s. s.engine) desired.engines)
    × (result.success ≡ all (λ r. r.success) result.engine_results)
    × (is_some result.error ≡ not result.success)
    × (a'.applied_revision ≡ (
        if all (λ r. r.success) result.engine_results
        then desired.revision
        else fresh.applied_revision))
apply-reports_example =
    apply-reports sample_hash false same_paths desired fresh (calm old_files rejecting)
