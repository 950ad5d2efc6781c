-- ===== src/Agent/Panel/Revisions.antt =====
-- The revisions that the panel loop installs, over all that may happen to the loop.
use over_vpn.Base.{
  ℕ, suc, ◌≤◌, ◌<◌, Bool, false, List, [], ◌∷◌, Text, leb, ◌≡◌, arith, Bool-cases, inl, inr,
  if◌then◌else◌,
}
use over_vpn.Schema.{CoreEngine}
use over_vpn.Agent.{EnginePaths}
use over_vpn.Agent.Service.{ApplyRequest, apply}
use over_vpn.Agent.Panel.{
  Environment, Answers, PanelLoop, Request, register_request, pull_request, save_request,
  heartbeat_request, push_request, ask, schedule, stop, apply_desired, fire,
}
use over_vpn.Agent.Panel.Stable.{IsStable, is_push, with_some-holds, tick-keeps}

-- What may happen to a loop that has started.
pub data LoopEvent : Type 0 where
  fired : Answers → LoopEvent
  stopped : LoopEvent

-- The revisions of the applications that succeeded, the newest first.
abbrev pub installed : List Request → List ℕ
installed [] = []
installed (push_request t r ∷ rs) = if r.success then r.revision ∷ installed rs else installed rs
installed (register_request t ∷ rs) = installed rs
installed (pull_request t ∷ rs) = installed rs
installed (save_request s ∷ rs) = installed rs
installed (heartbeat_request t h ∷ rs) = installed rs

-- The numbers descend, from below a bound.
abbrev pub DescendsBelow : ℕ → List ℕ → Type 0
DescendsBelow n [] = Unit
DescendsBelow n (r ∷ rs) = (r < n) × DescendsBelow r rs

DescendsBelow-widen : {m n : ℕ} (rs : List ℕ) → m ≤ n → DescendsBelow m rs → DescendsBelow n rs
DescendsBelow-widen [] le d = tt
DescendsBelow-widen (r ∷ rs) le (lt, d) = (omega arith, d)

abbrev IsOrdered : PanelLoop → Type 0
IsOrdered l = DescendsBelow (suc l.service.applied_revision) (installed l.requests)

ask-IsOrdered :
    (l : PanelLoop) (r : Request) → is_push r ≡ false → IsOrdered l → IsOrdered (ask r l)
ask-IsOrdered l (push_request t r) h o = absurd (ground arith)
ask-IsOrdered l (register_request t) h o = o
ask-IsOrdered l (pull_request t) h o = o
ask-IsOrdered l (save_request s) h o = o
ask-IsOrdered l (heartbeat_request t b) h o = o

schedule-IsOrdered : (l : PanelLoop) → IsOrdered l → IsOrdered (schedule l)
unfolding schedule
schedule-IsOrdered l o = elim (Bool-cases l.running) [ inl h ↦ simp h o | inr h ↦ simp h o ]

module _ (sha256 : Text → Text) (skip_reload : Bool) (paths : CoreEngine → EnginePaths)
    (env : Environment) where
  apply_desired-IsOrdered :
      (token : Text) (d : ApplyRequest) (l : PanelLoop)
      → leb d.revision l.service.applied_revision ≡ false
      → IsOrdered l
      → IsOrdered (apply_desired sha256 skip_reload paths env token d l)
  unfolding apply_desired apply
  apply_desired-IsOrdered token d l newer o =
      elim (Bool-cases (apply sha256 skip_reload paths d l.service l.world).0.success) [
        | inl h ↦ simp h (omega arith, DescendsBelow-widen (installed l.requests) (ground arith) o)
        | inr h ↦ simp h o
      ]

  IsOrdered-IsStable : IsStable sha256 skip_reload paths env IsOrdered
  IsOrdered-IsStable = record {
    noted = λ l problem o. o;
    merged = λ l c o. o;
    asked = ask-IsOrdered;
    applied = apply_desired-IsOrdered;
  }

  abbrev pub happen : LoopEvent → PanelLoop → PanelLoop
  happen (fired a) l = fire sha256 skip_reload paths env a l
  happen stopped l = stop l

  abbrev pub happen_all : List LoopEvent → PanelLoop → PanelLoop
  happen_all [] l = l
  happen_all (e ∷ es) l = happen_all es (happen e l)

  -- What each event keeps, all of them keep.
  pub happen_all-keeps :
      {P : PanelLoop → Type 0}
      → ((e : LoopEvent) (l : PanelLoop) → P l → P (happen e l))
      → (events : List LoopEvent) (l : PanelLoop) → P l
      → P (happen_all events l)
  happen_all-keeps keeps [] l p = p
  happen_all-keeps keeps (e ∷ es) l p = happen_all-keeps keeps es (happen e l) (keeps e l p)

  happen-IsOrdered : (e : LoopEvent) (l : PanelLoop) → IsOrdered l → IsOrdered (happen e l)
  unfolding fire stop
  happen-IsOrdered stopped l o = o
  happen-IsOrdered (fired a) l o = with_some-holds IsOrdered l.timer o λ delay.
      schedule-IsOrdered _ (tick-keeps sha256 skip_reload paths env IsOrdered-IsStable a l o)

  -- Whatever the panel answers, and whenever the loop is stopped, the revisions that the loop has
  -- installed with success ascend strictly, the newest is not above the applied revision of the
  -- service, and so no revision is installed twice.
  pub installed_descend :
      (events : List LoopEvent) (l : PanelLoop)
      → l.requests ≡ []
      → let l' = happen_all events l in
        DescendsBelow (suc l'.service.applied_revision) (installed l'.requests)
  installed_descend events l h =
      happen_all-keeps {P = IsOrdered} happen-IsOrdered events l (rw h tt)
