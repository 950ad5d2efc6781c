-- ===== src/Agent/Panel.antt =====
-- apps/agent/src/panel/loop.ts: the loop by which the agent of a node reports to the panel and takes
-- its desired state. What the panel, the probes and the file of the state answer in a tick is an
-- argument, and the requests that the agent sets out to make are listed, the newest first; a request
-- that the client refuses to send is one whose answer is a throw. The load of the host and the
-- description of the host in a registration are left out, and so are the log lines: a failure to
-- pull, or to push a result, leaves nothing else behind.
pub mod Stable
pub mod Revisions
pub mod Timer
pub mod Reported
mod Tests
use over_vpn.Base.{
  ℕ, ◌*◌, max, Bool, true, false, List, [], ◌∷◌, map, Option, none, some, Text, codes, truthy, leb,
  if◌then◌else◌, Result, ok, throw,
}
use over_vpn.Schema.{CoreEngine, sing_box, xray, mtproxy, amneziawg}
use over_vpn.Agent.{ApplyError, World, EnginePaths, is_filled}
use over_vpn.Agent.Service.{ApplyRequest, ApplyResult, Service, apply}

pub record Environment : Type 0 where
  pub install_token : Option Text
  pub agent_base_url : Option Text
  pub pull_desired_enabled : Bool

pub record RuntimeCredentials : Type 0 where
  pub proxy_server_id : Option Text
  pub node_token : Option Text
  pub heartbeat_interval_sec : ℕ

pub record AgentState : Type 0 where
  pub saved_server_id : Option Text
  pub saved_token : Option Text
  pub saved_interval_sec : Option ℕ

-- What a call throws, an `Error` with a message or another value.
pub data Thrown : Type 0 where
  error_with : Text → Thrown
  not_an_error : Thrown

-- The text that is kept for the panel: a message, or that of a failed application.
pub data Problem : Type 0 where
  message : Text → Problem
  apply_problem : ApplyError → Problem

pub data HeartbeatStatus : Type 0 where
  online error : HeartbeatStatus

pub record Heartbeat : Type 0 where
  pub status : HeartbeatStatus
  pub engines : List (CoreEngine × Bool)
  pub error_message : Option Problem

pub data Request : Type 0 where
  register_request pull_request : Text → Request
  save_request : AgentState → Request
  heartbeat_request : Text → Heartbeat → Request
  push_request : Text → ApplyResult → Request

-- The answers of a tick.
pub record Answers : Type 0 where
  pub registration : Result {0, 0} Thrown (Text × Text × ℕ)
  pub saved : Result {0, 0} Thrown Unit
  pub probe : CoreEngine → Bool
  pub heartbeat : Result {0, 0} Thrown Unit
  pub desired : Result {0, 0} Thrown (Option ApplyRequest)

-- The fields of `PanelLoop`, with the service that it shares and the world.
pub record PanelLoop : Type 0 where
  pub credentials : RuntimeCredentials
  pub last_error : Option Problem
  pub running : Bool
  pub timer : Option ℕ
  pub service : Service
  pub world : World
  pub requests : List Request

abbrev pub truthy_number : Option ℕ → Option ℕ
truthy_number none = none
truthy_number (some n) = if leb 1 n then some n else none

abbrev pub or_else {ℓ} : {A : Type ℓ} → Option A → A → A
or_else none a = a
or_else (some b) a = b

abbrev pub or_else_some {ℓ} : {A : Type ℓ} → Option A → Option A → Option A
or_else_some none a = a
or_else_some (some b) a = some b

abbrev pub with_some {ℓ κ} : {A : Type ℓ} → {B : Type κ} → Option A → B → (A → B) → B
with_some none b next = b
with_some (some a) b next = next a

abbrev pub ask : Request → PanelLoop → PanelLoop
ask r l = record l { requests = r ∷ l.requests }

-- `error instanceof Error ? error.message : ...`.
abbrev pub message_of : Text → Thrown → Text
message_of fallback (error_with t) = t
message_of fallback not_an_error = fallback

abbrev pub fail : Text → Thrown → PanelLoop → PanelLoop
fail fallback e l = record l { last_error = some (message (message_of fallback e)) }

-- `lastError ? 'ERROR' : 'ONLINE'`: the messages of an application are never empty.
abbrev pub status_of : Option Problem → HeartbeatStatus
status_of none = online
status_of (some (message t)) = if is_filled t then error else online
status_of (some (apply_problem e)) = error

abbrev pub merge_state : AgentState → RuntimeCredentials → RuntimeCredentials
merge_state s c = record {
  proxy_server_id = or_else_some (truthy s.saved_server_id) c.proxy_server_id;
  node_token = or_else_some (truthy s.saved_token) c.node_token;
  heartbeat_interval_sec = or_else (truthy_number s.saved_interval_sec) c.heartbeat_interval_sec;
}

-- `saveAgentState` writes what the credentials are by now.
abbrev pub state_of : RuntimeCredentials → AgentState
state_of c = record {
  saved_server_id = c.proxy_server_id;
  saved_token = c.node_token;
  saved_interval_sec = some c.heartbeat_interval_sec;
}

abbrev pub after_save : Result {0, 0} Thrown Unit → PanelLoop → PanelLoop
after_save (ok done) l = l
after_save (throw e) l = fail (codes "Register failed") e l

abbrev pub after_register :
    Result {0, 0} Thrown (Text × Text × ℕ) → Result {0, 0} Thrown Unit → PanelLoop → PanelLoop
after_register (throw e) saved l = fail (codes "Register failed") e l
after_register (ok (id, token, interval)) saved l =
    let c =
      merge_state
        (record {
          saved_server_id = some id;
          saved_token = some token;
          saved_interval_sec = some interval;
        })
        l.credentials in
    after_save saved (ask (save_request (state_of c)) (record l { credentials = c }))

-- `registerWithInstallToken`, and the test that guards its calls.
unfoldable pub register_with_install_token : Environment → Answers → PanelLoop → PanelLoop
register_with_install_token env a l = with_some (truthy env.install_token) l λ token.
    with_some (truthy env.agent_base_url) l
      λ url. after_register a.registration a.saved (ask (register_request token) l)

unfoldable pub ensure_registered : Environment → Answers → PanelLoop → PanelLoop
ensure_registered env a l =
    with_some (truthy l.credentials.node_token) (register_with_install_token env a l) (λ token. l)

-- `collectEngineStatus`.
abbrev pub collect_engine_status : Answers → List (CoreEngine × Bool)
collect_engine_status a = map (λ e. (e, a.probe e)) (sing_box ∷ xray ∷ mtproxy ∷ amneziawg ∷ [])

abbrev pub heartbeat_of : Answers → PanelLoop → Heartbeat
heartbeat_of a l = record {
  status = status_of l.last_error;
  engines = collect_engine_status a;
  error_message = l.last_error;
}

-- `result.errorMessage ?? ...`.
abbrev pub problem_of : Option ApplyError → Problem
problem_of none = message (codes "Desired-state apply failed")
problem_of (some e) = apply_problem e

abbrev pub note_result : ApplyResult → PanelLoop → PanelLoop
note_result r l = if r.success then l else record l { last_error = some (problem_of r.error) }

-- `schedule`: the delay in milliseconds.
unfoldable pub schedule : PanelLoop → PanelLoop
schedule l =
    if l.running
    then record l { timer = some (max 5 l.credentials.heartbeat_interval_sec * 1000) }
    else l

unfoldable pub stop : PanelLoop → PanelLoop
stop l = record l { running = false; timer = none }

module _ (sha256 : Text → Text) (skip_reload : Bool) (paths : CoreEngine → EnginePaths)
    (env : Environment) where
  -- The application of a desired state, whose result goes to the panel.
  unfoldable pub apply_desired : Text → ApplyRequest → PanelLoop → PanelLoop
  apply_desired token d l =
      let (result, service, world) = apply sha256 skip_reload paths d l.service l.world in
      note_result result
        (ask (push_request token result) (record l { service = service; world = world }))

  abbrev pub take_desired :
      Text → Result {0, 0} Thrown (Option ApplyRequest) → PanelLoop → PanelLoop
  take_desired token (throw e) l = l
  take_desired token (ok none) l = l
  take_desired token (ok (some d)) l =
      if leb d.revision l.service.applied_revision then l else apply_desired token d l

  abbrev pub pull : Text → Answers → PanelLoop → PanelLoop
  pull token a l =
      if env.pull_desired_enabled
      then take_desired token a.desired (ask (pull_request token) l)
      else l

  abbrev pub after_heartbeat : Text → Answers → Result {0, 0} Thrown Unit → PanelLoop → PanelLoop
  after_heartbeat token a (throw e) l = fail (codes "Heartbeat failed") e l
  after_heartbeat token a (ok done) l = pull token a (record l { last_error = none })

  -- `tick` with the token of the node.
  unfoldable pub beat : Text → Answers → PanelLoop → PanelLoop
  beat token a l =
      after_heartbeat token a a.heartbeat (ask (heartbeat_request token (heartbeat_of a l)) l)

  unfoldable pub tick : Answers → PanelLoop → PanelLoop
  tick a l =
      let r = ensure_registered env a l in
      with_some (truthy r.credentials.node_token) r (λ token. beat token a r)

  -- `start` with what the file of the state holds; where it cannot be read, nothing runs. The first
  -- argument has the answers of the registration, the second those of the first tick.
  unfoldable pub start_loop :
      Answers → Answers → Result {0, 0} Thrown AgentState → PanelLoop → PanelLoop
  start_loop a b (throw e) l = l
  start_loop a b (ok persisted) l =
      let r =
        ensure_registered env a (record l { credentials = merge_state persisted l.credentials }) in
      schedule (tick b (record r { running = true }))

  -- A timer that is set runs out.
  unfoldable pub fire : Answers → PanelLoop → PanelLoop
  fire a l = with_some l.timer l (λ delay. schedule (tick a l))
