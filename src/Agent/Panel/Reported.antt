-- ===== src/Agent/Panel/Reported.antt =====
-- How the panel learns of an application that failed.
use over_vpn.Base.{
  Bool, true, false, not, List, [], ◌∷◌, ◌++◌, Option, none, some, is_some, Text, if◌then◌else◌,
  truthy, leb, Result, ok, throw, ◌≡◌, refl, ap, ◌∙◌, sym, Bool-cases, inl, inr, arith,
}
use over_vpn.Schema.{CoreEngine}
use over_vpn.Agent.{ApplyError, EnginePaths}
use over_vpn.Agent.Service.{ApplyRequest, ApplyResult, apply}
use over_vpn.Agent.Service.Revision.{apply-reports}
use over_vpn.Agent.Panel.{
  Environment, Thrown, Answers, PanelLoop, error, Request, pull_request, push_request,
  heartbeat_request, apply_problem, problem_of, ask, note_result, ensure_registered,
  collect_engine_status, heartbeat_of, apply_desired, take_desired, after_heartbeat, beat, tick,
}

-- The requests of one loop follow those of another.
abbrev Continues : PanelLoop → List Request → Type 0
Continues l earlier = (more : List Request) × (l.requests ≡ more ++ earlier)

some-of_is_some : {A : Type 0} (x : Option A) → is_some x ≡ true → (a : A) × (x ≡ some a)
some-of_is_some none h = absurd (ground arith)
some-of_is_some (some a) h = (a, refl)

note_result-Continues :
    (r : ApplyResult) (l : PanelLoop) {earlier : List Request}
    → Continues l earlier
    → Continues (note_result r l) earlier
note_result-Continues r l c = elim (Bool-cases r.success) [ inl h ↦ simp h c | inr h ↦ simp h c ]

heartbeat_of-raised :
    (b : Answers) (l : PanelLoop) (e : ApplyError)
    → l.last_error ≡ some (apply_problem e)
    → heartbeat_of b l ≡ record {
      status = error;
      engines = collect_engine_status b;
      error_message = some (apply_problem e);
    }
heartbeat_of-raised b l e raised = rw raised refl

module _ (sha256 : Text → Text) (skip_reload : Bool) (paths : CoreEngine → EnginePaths)
    (env : Environment) where
  apply_desired-Continues :
      (token : Text) (d : ApplyRequest) (l : PanelLoop) (first : Request) {earlier : List Request}
      → l.requests ≡ first ∷ earlier
      → Continues (apply_desired sha256 skip_reload paths env token d l) earlier
  unfolding apply_desired
  apply_desired-Continues token d l first h =
      let (result, service, world) = apply sha256 skip_reload paths d l.service l.world in
      note_result-Continues result
        (ask (push_request token result) (record l { service = service; world = world }))
        (push_request token result ∷ first ∷ [], ap (λ rs. push_request token result ∷ rs) h)

  take_desired-Continues :
      (token : Text) (answer : Result {0, 0} Thrown (Option ApplyRequest)) (l : PanelLoop)
      (first : Request) {earlier : List Request}
      → l.requests ≡ first ∷ earlier
      → Continues (take_desired sha256 skip_reload paths env token answer l) earlier
  take_desired-Continues token (throw e) l first h = (first ∷ [], h)
  take_desired-Continues token (ok none) l first h = (first ∷ [], h)
  take_desired-Continues token (ok (some d)) l first h =
      elim (Bool-cases (leb d.revision l.service.applied_revision)) [
        | inl old ↦ simp old (first ∷ [], h)
        | inr new ↦ simp new (apply_desired-Continues token d l first h)
      ]

  after_heartbeat-Continues :
      (token : Text) (a : Answers) (answer : Result {0, 0} Thrown Unit) (l : PanelLoop)
      → Continues (after_heartbeat sha256 skip_reload paths env token a answer l) l.requests
  after_heartbeat-Continues token a (throw e) l = ([], refl)
  after_heartbeat-Continues token a (ok done) l = elim (Bool-cases env.pull_desired_enabled) [
    | inl on ↦ simp on (take_desired-Continues token a.desired _ (pull_request token) refl)
    | inr off ↦ simp off ([], refl)
  ]

  -- With a token, a tick is a heartbeat and what follows it.
  tick-of_token :
      (token : Text) (a : Answers) (l : PanelLoop)
      → truthy l.credentials.node_token ≡ some token
      → tick sha256 skip_reload paths env a l ≡ beat sha256 skip_reload paths env token a l
  unfolding tick ensure_registered
  tick-of_token token a l held = rw (held, held) refl

  beat-Continues :
      (token : Text) (a : Answers) (l : PanelLoop)
      → Continues
          (beat sha256 skip_reload paths env token a l)
          (heartbeat_request token (heartbeat_of a l) ∷ l.requests)
  unfolding beat
  beat-Continues token a l = after_heartbeat-Continues token a a.heartbeat _

  -- A tick that takes a newer state, up to what it leaves beside requests and the world.
  tick-takes :
      (token : Text) (a : Answers) (l : PanelLoop) (d : ApplyRequest)
      → truthy l.credentials.node_token ≡ some token
      → a.heartbeat ≡ ok tt
      → env.pull_desired_enabled ≡ true
      → a.desired ≡ ok (some d)
      → leb d.revision l.service.applied_revision ≡ false
      → (apply sha256 skip_reload paths d l.service l.world).0.success ≡ false
      → let l' = tick sha256 skip_reload paths env a l in
        let (result, service, world) = apply sha256 skip_reload paths d l.service l.world in
        (l'.last_error ≡ some (problem_of result.error))
        × (l'.service ≡ service)
        × (l'.credentials ≡ l.credentials)
  unfolding beat apply_desired
  tick-takes token a l d held accepted on offered newer failed =
      rw (tick-of_token token a l held, accepted, on, offered)
        (simp (newer, failed) (refl, refl, refl))

  -- Where a loop with a token has its heartbeat accepted, may pull, is offered a state with a
  -- higher revision, and fails to apply it, the applied revision stays, and the heartbeat of the
  -- next tick, which comes before any other request of that tick, has the status ERROR and the
  -- first error of the application.
  pub failure_is_reported :
      (token : Text) (a b : Answers) (l : PanelLoop) (d : ApplyRequest)
      → truthy l.credentials.node_token ≡ some token
      → a.heartbeat ≡ ok tt
      → env.pull_desired_enabled ≡ true
      → a.desired ≡ ok (some d)
      → leb d.revision l.service.applied_revision ≡ false
      → (apply sha256 skip_reload paths d l.service l.world).0.success ≡ false
      → let l1 = tick sha256 skip_reload paths env a l in
        let l2 = tick sha256 skip_reload paths env b l1 in
        (e : ApplyError) × ((apply sha256 skip_reload paths d l.service l.world).0.error ≡ some e)
        × (l1.service.applied_revision ≡ l.service.applied_revision)
        × (more : List Request) × (l2.requests
            ≡ more
              ++ heartbeat_request token (record {
                status = error;
                engines = collect_engine_status b;
                error_message = some (apply_problem e);
              })
                ∷ l1.requests)
  failure_is_reported token a b l d held accepted on offered newer failed =
      let (engines, flag, named, revision) =
        apply-reports sha256 skip_reload paths d l.service l.world in
      let (e, first) = some-of_is_some _ (named ∙ ap not failed) in
      let (raised, service, credentials) =
        tick-takes token a l d held accepted on offered newer failed in
      let l1 = tick sha256 skip_reload paths env a l in
      let (more, follows) = beat-Continues token b l1 in
      (
        e,
        first,
        ap (λ s. s.applied_revision) service
            ∙ revision
            ∙ ap (λ all. if all then d.revision else l.service.applied_revision)
                (sym flag ∙ failed),
        more,
        ap (λ x. x.requests)
              (tick-of_token token b l1 (ap (λ c. truthy c.node_token) credentials ∙ held))
            ∙ follows
            ∙ ap (λ h. more ++ heartbeat_request token h ∷ l1.requests)
                (heartbeat_of-raised b l1 e (raised ∙ ap (λ x. some (problem_of x)) first)),
      )
