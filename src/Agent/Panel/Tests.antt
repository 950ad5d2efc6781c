-- ===== src/Agent/Panel/Tests.antt =====
-- The panel loop at concrete inputs.
use over_vpn.Base.{
  suc, List, ◌++◌, true, false, [], ◌∷◌, none, some, is_some, Text, codes, truthy, leb, ok, throw,
  ◌≡◌, refl,
}
use over_vpn.Agent.{ApplyError, rejected}
use over_vpn.Agent.Install.{calm}
use over_vpn.Agent.Service.{apply}
use over_vpn.Agent.Tests.{sample_hash, same_paths, old_files, rejecting, desired, fresh}
use over_vpn.Agent.Panel.{
  Environment, AgentState, Answers, PanelLoop, not_an_error, Request, heartbeat_request, error,
  apply_problem, message, collect_engine_status, tick, start_loop,
}
use over_vpn.Agent.Panel.Revisions.{
  LoopEvent, fired, stopped, installed, DescendsBelow, happen_all, installed_descend,
}
use over_vpn.Agent.Panel.Reported.{failure_is_reported}
use over_vpn.Agent.Panel.Timer.{IsSlow, timer_iff_running}

abbrev environment : Environment
environment = record {
  install_token = some (codes "i");
  agent_base_url = some (codes "u");
  pull_desired_enabled = true;
}

-- The panel accepts everything and offers a state.
abbrev offering : Answers
offering = record {
  registration = ok (codes "p", codes "t", 3);
  saved = ok tt;
  probe = λ e. true;
  heartbeat = ok tt;
  desired = ok (some desired);
}

-- The panel is not there.
abbrev failing : Answers
failing = record {
  registration = throw not_an_error;
  saved = ok tt;
  probe = λ e. true;
  heartbeat = throw not_an_error;
  desired = throw not_an_error;
}

-- A loop that has not started, and one that holds a token.
abbrev fresh_loop : PanelLoop
fresh_loop = record {
  credentials = record { proxy_server_id = none; node_token = none; heartbeat_interval_sec = 3 };
  last_error = none;
  running = false;
  timer = none;
  service = fresh;
  world = calm old_files rejecting;
  requests = [];
}

abbrev held_loop : PanelLoop
held_loop = record fresh_loop {
  credentials = record {
    proxy_server_id = none;
    node_token = some (codes "t");
    heartbeat_interval_sec = 3;
  };
  running = true;
  timer = some 5000;
}

abbrev nothing_saved : AgentState
nothing_saved = record { saved_server_id = none; saved_token = none; saved_interval_sec = none }

abbrev events : List LoopEvent
events = fired failing ∷ fired offering ∷ fired offering ∷ stopped ∷ fired offering ∷ []

-- The offered state is taken once, and nothing follows the stop.
taken_once :
    installed (happen_all sample_hash true same_paths environment events held_loop).requests
    ≡ 9 ∷ []
unfolding over_vpn.Agent.Panel.fire over_vpn.Agent.Panel.stop over_vpn.Agent.Panel.tick
    over_vpn.Agent.Panel.schedule over_vpn.Agent.Panel.ensure_registered
    over_vpn.Agent.Panel.register_with_install_token over_vpn.Agent.Panel.beat
    over_vpn.Agent.Panel.apply_desired apply over_vpn.Agent.Service.apply_engines
    over_vpn.Agent.apply_engine over_vpn.Agent.recover over_vpn.Agent.install over_vpn.Base.get
    over_vpn.Base.text_eq over_vpn.Base.put over_vpn.Agent.reload_engine
taken_once = refl

registered_at_start :
    (start_loop sample_hash true same_paths environment failing offering
      (ok nothing_saved)
      fresh_loop).credentials.node_token
    ≡ some (codes "t")
unfolding over_vpn.Agent.Panel.start_loop over_vpn.Agent.Panel.tick over_vpn.Agent.Panel.schedule
    over_vpn.Agent.Panel.ensure_registered over_vpn.Agent.Panel.register_with_install_token
    over_vpn.Agent.Panel.beat over_vpn.Agent.Panel.apply_desired apply
    over_vpn.Agent.Service.apply_engines over_vpn.Agent.apply_engine over_vpn.Agent.recover
    over_vpn.Agent.install over_vpn.Base.get over_vpn.Base.text_eq over_vpn.Base.put
    over_vpn.Agent.reload_engine
registered_at_start = refl

installed_descend_example :
    let l' = happen_all sample_hash true same_paths environment events held_loop in
    DescendsBelow (suc l'.service.applied_revision) (installed l'.requests)
installed_descend_example =
    installed_descend sample_hash true same_paths environment events held_loop refl

desired-fails :
    (apply sample_hash false same_paths desired fresh (calm old_files rejecting)).0.success ≡ false
unfolding apply over_vpn.Agent.Service.apply_engines over_vpn.Agent.apply_engine
    over_vpn.Agent.recover over_vpn.Agent.install over_vpn.Base.get over_vpn.Base.text_eq
    over_vpn.Base.put over_vpn.Agent.reload_engine over_vpn.Agent.request_reload
    over_vpn.Agent.wait_for
desired-fails = refl

failure_is_reported_example :
    let l1 = tick sample_hash false same_paths environment offering held_loop in
    let l2 = tick sample_hash false same_paths environment failing l1 in
    (e : ApplyError) × ((apply sample_hash false same_paths desired fresh
        (calm old_files rejecting)).0.error
      ≡ some e)
    × (l1.service.applied_revision ≡ 4)
    × (more : List Request) × (l2.requests
        ≡ more
          ++ heartbeat_request (codes "t") (record {
            status = error;
            engines = collect_engine_status failing;
            error_message = some (apply_problem e);
          })
            ∷ l1.requests)
failure_is_reported_example =
    failure_is_reported sample_hash false same_paths environment (codes "t") offering failing
      held_loop desired refl refl refl refl refl desired-fails

timer_iff_running_example :
    let l' = happen_all sample_hash true same_paths environment events (
      start_loop sample_hash true same_paths environment failing offering
        (ok nothing_saved)
        fresh_loop) in
    (is_some l'.timer ≡ l'.running) × IsSlow l'.timer
timer_iff_running_example =
    timer_iff_running sample_hash true same_paths environment failing offering (ok nothing_saved)
      events fresh_loop refl refl
