-- ===== src/Agent/Panel/Timer.antt =====
-- The timer of the panel loop.
use over_vpn.Base.{
  ℕ, ◌≤◌, Bool, true, false, List, Option, none, some, is_some, Text, Result, ok, throw, ◌≡◌, refl,
  sym, ◌∙◌, arith, Bool-cases, inl, inr,
}
use over_vpn.Schema.{CoreEngine}
use over_vpn.Agent.{EnginePaths}
use over_vpn.Agent.Service.{ApplyResult, apply}
use over_vpn.Agent.Panel.{
  Environment, AgentState, Thrown, Answers, PanelLoop, merge_state, note_result, schedule, stop,
  apply_desired, start_loop, fire,
}
use over_vpn.Agent.Panel.Stable.{IsStable, with_some-holds, ensure_registered-keeps, tick-keeps}
use over_vpn.Agent.Panel.Revisions.{LoopEvent, fired, stopped, happen, happen_all, happen_all-keeps}

-- A delay of at least five seconds.
abbrev pub IsSlow : Option ℕ → Type 0
IsSlow none = Unit
IsSlow (some delay) = 5000 ≤ delay

-- The timer is set exactly where the loop runs, and is slow.
abbrev IsTimed : PanelLoop → Type 0
IsTimed l = (is_some l.timer ≡ l.running) × IsSlow l.timer

-- The timer is what it was, and so is the flag.
abbrev IsAt : Bool → Option ℕ → PanelLoop → Type 0
IsAt running timer l = (l.running ≡ running) × (l.timer ≡ timer)

none-of_is_some : {A : Type 0} (x : Option A) → is_some x ≡ false → x ≡ none
none-of_is_some none h = refl
none-of_is_some (some a) h = absurd (ground arith)

note_result-IsAt :
    (running : Bool) (timer : Option ℕ) (r : ApplyResult) (l : PanelLoop)
    → IsAt running timer l
    → IsAt running timer (note_result r l)
note_result-IsAt running timer r l at = elim (Bool-cases r.success) [
  | inl h ↦ simp h at
  | inr h ↦ simp h at
]

schedule-IsTimed : (l : PanelLoop) → (l.running ≡ false → l.timer ≡ none) → IsTimed (schedule l)
unfolding schedule
schedule-IsTimed l idle = elim (Bool-cases l.running) [
  | inl h ↦ simp h (refl, omega arith)
  | inr h ↦ simp (h, idle h) (refl, tt)
]

module _ (sha256 : Text → Text) (skip_reload : Bool) (paths : CoreEngine → EnginePaths)
    (env : Environment) where
  IsAt-IsStable :
      (running : Bool) (timer : Option ℕ)
      → IsStable sha256 skip_reload paths env (IsAt running timer)
  unfolding apply_desired
  IsAt-IsStable running timer = record {
    noted = λ l problem at. at;
    merged = λ l c at. at;
    asked = λ l r h at. at;
    applied = λ token d l newer at.
        note_result-IsAt running timer (apply sha256 skip_reload paths d l.service l.world).0 _ at;
  }

  start_loop-IsTimed :
      (a b : Answers) (persisted : Result {0, 0} Thrown AgentState) (l : PanelLoop)
      → l.running ≡ false
      → l.timer ≡ none
      → IsTimed (start_loop sha256 skip_reload paths env a b persisted l)
  unfolding start_loop
  start_loop-IsTimed a b (throw e) l idle unset = rw (idle, unset) (refl, tt)
  start_loop-IsTimed a b (ok persisted) l idle unset =
      let at =
        ensure_registered-keeps sha256 skip_reload paths env (IsAt-IsStable false none) a
          (record l { credentials = merge_state persisted l.credentials }) (idle, unset) in
      schedule-IsTimed _
        λ h. (tick-keeps sha256 skip_reload paths env (IsAt-IsStable true none) b _ (refl, at.1)).1

  happen-IsTimed :
      (e : LoopEvent) (l : PanelLoop)
      → IsTimed l
      → IsTimed (happen sha256 skip_reload paths env e l)
  unfolding fire stop
  happen-IsTimed stopped l timed = (refl, tt)
  happen-IsTimed (fired a) l timed = with_some-holds IsTimed l.timer timed λ delay.
      let (running, timer) =
        tick-keeps sha256 skip_reload paths env (IsAt-IsStable l.running l.timer) a l
          (refl, refl) in
      schedule-IsTimed _ λ h. timer ∙ none-of_is_some l.timer (timed.0 ∙ sym running ∙ h)

  -- After the start of a loop that neither ran nor had a timer, and whatever then happens to it,
  -- the timer is set exactly where the loop runs, and its delay is at least five seconds.
  pub timer_iff_running :
      (a b : Answers) (persisted : Result {0, 0} Thrown AgentState) (events : List LoopEvent)
      (l : PanelLoop)
      → l.running ≡ false
      → l.timer ≡ none
      → let l' =
          happen_all sha256 skip_reload paths env events
            (start_loop sha256 skip_reload paths env a b persisted l) in
        (is_some l'.timer ≡ l'.running) × IsSlow l'.timer
  timer_iff_running a b persisted events l idle unset =
      happen_all-keeps sha256 skip_reload paths env {P = IsTimed} happen-IsTimed events _
        (start_loop-IsTimed a b persisted l idle unset)
