-- ===== src/Agent/Panel/Stable.antt =====
-- Predicates on the panel loop that a tick keeps because each of its changes does.
use over_vpn.Base.{
  ℕ, Bool, true, false, Option, none, some, Text, truthy, leb, ok, throw, ◌≡◌, refl, Bool-cases,
  inl, inr, Result,
}
use over_vpn.Schema.{CoreEngine}
use over_vpn.Agent.{EnginePaths}
use over_vpn.Agent.Service.{ApplyRequest}
use over_vpn.Agent.Panel.{
  Environment, RuntimeCredentials, Thrown, Problem, Answers, PanelLoop, Request, register_request,
  pull_request, save_request, heartbeat_request, push_request, with_some, ask, after_save,
  after_register, register_with_install_token, ensure_registered, apply_desired, take_desired,
  after_heartbeat, beat, tick,
}

abbrev pub is_push : Request → Bool
is_push (push_request t r) = true
is_push (register_request t) = false
is_push (pull_request t) = false
is_push (save_request s) = false
is_push (heartbeat_request t h) = false

pub with_some-holds {ℓ κ μ} :
    {A : Type ℓ} {B : Type κ} (P : B → Type μ) (x : Option A) {b : B} {next : A → B}
    → P b
    → ((a : A) → P (next a))
    → P (with_some x b next)
with_some-holds P none holds each = holds
with_some-holds P (some a) holds each = each a

module _ (sha256 : Text → Text) (skip_reload : Bool) (paths : CoreEngine → EnginePaths)
    (env : Environment) where
  -- Each change of a tick keeps the predicate.
  pub record IsStable (P : PanelLoop → Type 0) : Type 0 where
    pub noted :
        (l : PanelLoop) (problem : Option Problem) → P l → P (record l { last_error = problem })
    pub merged : (l : PanelLoop) (c : RuntimeCredentials) → P l → P (record l { credentials = c })
    pub asked : (l : PanelLoop) (r : Request) → is_push r ≡ false → P l → P (ask r l)
    pub applied :
        (token : Text) (d : ApplyRequest) (l : PanelLoop)
        → leb d.revision l.service.applied_revision ≡ false
        → P l
        → P (apply_desired sha256 skip_reload paths env token d l)

  module _ {P : PanelLoop → Type 0} (stable : IsStable P) where
    after_save-keeps :
        (saved : Result {0, 0} Thrown Unit) (l : PanelLoop) → P l → P (after_save saved l)
    after_save-keeps (throw e) l p = stable.noted _ _ p
    after_save-keeps (ok done) l p = p

    after_register-keeps :
        (registration : Result {0, 0} Thrown (Text × Text × ℕ)) (saved : Result {0, 0} Thrown Unit)
        (l : PanelLoop)
        → P l
        → P (after_register registration saved l)
    after_register-keeps (throw e) saved l p = stable.noted _ _ p
    after_register-keeps (ok (id, token, interval)) saved l p =
        after_save-keeps saved _ (stable.asked _ _ refl (stable.merged _ _ p))

    pub ensure_registered-keeps :
        (a : Answers) (l : PanelLoop) → P l → P (ensure_registered env a l)
    unfolding ensure_registered register_with_install_token
    ensure_registered-keeps a l p =
        with_some-holds P (truthy l.credentials.node_token)
          (with_some-holds P (truthy env.install_token) p λ token.
            with_some-holds P (truthy env.agent_base_url) p
              λ url. after_register-keeps a.registration a.saved _ (stable.asked _ _ refl p))
          (λ token. p)

    take_desired-keeps :
        (token : Text) (answer : Result {0, 0} Thrown (Option ApplyRequest)) (l : PanelLoop)
        → P l
        → P (take_desired sha256 skip_reload paths env token answer l)
    take_desired-keeps token (throw e) l p = p
    take_desired-keeps token (ok none) l p = p
    take_desired-keeps token (ok (some d)) l p =
        elim (Bool-cases (leb d.revision l.service.applied_revision)) [
          | inl h ↦ simp h p
          | inr h ↦ simp h (stable.applied token d l h p)
        ]

    after_heartbeat-keeps :
        (token : Text) (a : Answers) (answer : Result {0, 0} Thrown Unit) (l : PanelLoop)
        → P l
        → P (after_heartbeat sha256 skip_reload paths env token a answer l)
    after_heartbeat-keeps token a (throw e) l p = stable.noted _ _ p
    after_heartbeat-keeps token a (ok done) l p = elim (Bool-cases env.pull_desired_enabled) [
      | inl h ↦
          simp h
            (take_desired-keeps token a.desired _ (stable.asked _ _ refl (stable.noted _ none p)))
      | inr h ↦ simp h (stable.noted _ none p)
    ]

    pub tick-keeps : (a : Answers) (l : PanelLoop) → P l → P (tick sha256 skip_reload paths env a l)
    unfolding tick beat
    tick-keeps a l p =
        let registered = ensure_registered-keeps a l p in
        with_some-holds P (truthy (ensure_registered env a l).credentials.node_token) registered
          (λ token. after_heartbeat-keeps token a a.heartbeat _ (stable.asked _ _ refl registered))
