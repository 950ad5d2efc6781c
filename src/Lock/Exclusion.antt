-- ===== src/Lock/Exclusion.antt =====
-- Two processes never rely on the lock at the same time.
use over_vpn.Base.{
  ℕ, ◌+◌, ◌<◌, true, false, Option, some, Text, text_eq, text_eq_iff, get, put, get-put, lt→ltb,
  ◌≡◌, ◌≢◌, inl, inr, refl, arith, Bool-cases, Option-cases, ap, ◌∙◌, sym,
}
use mathlib.Core.Path.{subst}
use over_vpn.Lock.{
  Entry, System, Step, tick, acquire, renew, release, Reachable, start, next, live, owns, set_nx,
  renew_script, release_script, granted,
}

abbrev entry_of : Text → ℕ → Option Entry
entry_of token until = some (record { token = token; until = until })

-- A process that relies on the lock has the entry, up to the instant that it relies on.
abbrev Inv : System → Type 0
Inv s = (t : Text) (d : ℕ) → get t s.grants ≡ some d → s.now < d → s.entry ≡ entry_of t d

live-entry : (now d : ℕ) (t : Text) → now < d → live now (entry_of t d) ≡ entry_of t d
unfolding live
live-entry now d t h = rw (lt→ltb now d h) refl

text_eq-of_ne : (s t : Text) → s ≢ t → text_eq s t ≡ false
text_eq-of_ne s t h = ground (arith, text_eq_iff s t)

-- A grant changes to one that the new entry has, or that is over; those of others keep their entry.
Inv-put :
    (s : System) (token : Text) (until : ℕ) (entry : Option Entry)
    → Inv s
    → (s.now < until → entry ≡ entry_of token until)
    → ((t : Text) (d : ℕ) → t ≢ token → s.entry ≡ entry_of t d → s.now < d → entry ≡ entry_of t d)
    → Inv (record s { entry = entry; grants = put token until s.grants })
Inv-put s token until entry inv mine others t d h later =
    let found = sym (get-put token t until s.grants) ∙ h in
    elim (Bool-cases (text_eq token t)) [
      | inl same ↦
          let e = (text_eq_iff token t).0 same in
          let u : until ≡ d = let f = rw same at found in cc in
          mine (omega (arith, u)) ∙ (λ i. entry_of (e i) (u i))
      | inr other ↦
          others t d (λ e. let b = (text_eq_iff token t).1 (sym e) in cc)
            (inv t d (rw other at found) later) later
    ]

Inv-entry :
    (s : System) (entry : Option Entry)
    → Inv s
    → ((t : Text) (d : ℕ) → s.entry ≡ entry_of t d → s.now < d → entry ≡ entry_of t d)
    → Inv (record s { entry = entry })
Inv-entry s entry inv kept t d h later = kept t d (inv t d h later) later

Inv-acquire :
    (s : System) (token : Text) (ttl : ℕ)
    → Inv s
    → Inv (granted token ttl (set_nx token ttl s.now s.entry) s)
unfolding set_nx
Inv-acquire s token ttl inv = elim (Option-cases (live s.now s.entry)) [
  | inl free ↦
      let got : set_nx token ttl s.now s.entry ≡ (true, entry_of token (s.now + ttl)) =
        rw free refl in
      subst (λ r. Inv (granted token ttl r s)) (sym got)
        (Inv-put s token (s.now + ttl) (entry_of token (s.now + ttl)) inv (λ _. refl)
          (λ t d _ e later. let alive = ap (live s.now) e ∙ live-entry s.now d t later in cc))
  | inr (e, taken) ↦
      let lost : set_nx token ttl s.now s.entry ≡ (false, some e) = rw taken refl in
      subst (λ r. Inv (granted token ttl r s)) (sym lost)
        (Inv-entry s (some e) inv
          (λ t d old later. sym taken ∙ ap (live s.now) old ∙ live-entry s.now d t later))
]

-- An entry that lives is not another's.
owns-entry :
    (now d : ℕ) (t token : Text) (entry : Option Entry)
    → entry ≡ entry_of t d
    → now < d
    → owns token (live now entry) ≡ text_eq t token
unfolding owns
owns-entry now d t token entry e later = rw (e, live-entry now d t later) refl

Inv-renew :
    (s : System) (token : Text) (ttl : ℕ)
    → Inv s
    → Inv (granted token ttl (renew_script token ttl s.now s.entry) s)
unfolding renew_script
Inv-renew s token ttl inv = elim (Bool-cases (owns token (live s.now s.entry))) [
  | inl own ↦
      let got : renew_script token ttl s.now s.entry ≡ (true, entry_of token (s.now + ttl)) =
        rw own refl in
      subst (λ r. Inv (granted token ttl r s)) (sym got)
        (Inv-put s token (s.now + ttl) (entry_of token (s.now + ttl)) inv (λ _. refl)
          (λ t d other e later. absurd (
            other
              ((text_eq_iff t token).0 (sym (owns-entry s.now d t token s.entry e later) ∙ own)))))
  | inr foreign ↦
      let lost : renew_script token ttl s.now s.entry ≡ (false, live s.now s.entry) =
        rw foreign refl in
      subst (λ r. Inv (granted token ttl r s)) (sym lost)
        (Inv-entry s (live s.now s.entry) inv
          (λ t d old later. ap (live s.now) old ∙ live-entry s.now d t later))
]

Inv-release :
    (s : System) (token : Text)
    → Inv s
    → Inv
        (record s { entry = (release_script token s.now s.entry).1; grants = put token 0 s.grants })
unfolding release_script
Inv-release s token inv =
    Inv-put s token 0 _ inv (λ h. absurd (omega arith))
      (λ t d other e later.
        let foreign : owns token (live s.now s.entry) ≡ false =
          owns-entry s.now d t token s.entry e later ∙ text_eq-of_ne t token other in
        rw foreign (ap (live s.now) e ∙ live-entry s.now d t later))

Inv-step : (s t : System) → Step s t → Inv s → Inv t
Inv-step s _ (tick _ d) inv = λ t u h later. inv t u h (omega arith)
Inv-step s _ (acquire _ token ttl) inv = Inv-acquire s token ttl inv
Inv-step s _ (renew _ token ttl) inv = Inv-renew s token ttl inv
Inv-step s _ (release _ token) inv = Inv-release s token inv

Reachable-Inv : (s : System) → Reachable s → Inv s
unfolding get
Reachable-Inv _ (start now) = λ t d h later. cc
Reachable-Inv _ (next s t before step) = Inv-step s t step (Reachable-Inv s before)

-- In every reachable state of the server and its processes, two tokens whose processes may still
-- rely on the lock are the same.
pub mutual_exclusion :
    (s : System) (t u : Text) (d e : ℕ)
    → Reachable s
    → get t s.grants ≡ some d
    → s.now < d
    → get u s.grants ≡ some e
    → s.now < e
    → t ≡ u
mutual_exclusion s t u d e reached h later k after =
    let a = Reachable-Inv s reached t d h later in let b = Reachable-Inv s reached u e k after in cc
