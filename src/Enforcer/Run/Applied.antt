-- ===== src/Enforcer/Run/Applied.antt =====
-- What a healthy run of the enforcer says of the cores.
use over_vpn.Base.{
  ℕ, ◌≤◌, ◌<◌, false, not, ◌||◌, length, Option, none, some, ltb, Result, ok, throw, ◌≡◌, arith,
  refl, Bool-cases, inl, inr, ap, ◌∙◌, sym,
}
use over_vpn.Enforcer.{Tables, Outcome, outcome, written, enforce_limits}
use over_vpn.Enforcer.Table.{IsKeyed}
use over_vpn.Enforcer.Pending.{transitions_le_pending}
use over_vpn.Enforcer.Run.{
  ApplyStatus, succeeded, healthy, acquired, Answers, finish, is_unapplied, after_apply,
  after_transaction, run_once,
}

finish-healthy :
    (a : Answers) (out : Outcome) (applied : Option ApplyStatus) (db : Tables)
    (evaluated changes resets : ℕ) (status : Option ApplyStatus)
    → (finish a out applied db).result ≡ acquired healthy evaluated changes resets status
    → (applied ≡ status) × (length out.transitions ≡ changes) × (is_unapplied applied ≡ false)
unfolding finish
finish-healthy a out applied db evaluated changes resets status returned =
    elim (Bool-cases a.owned_at_end) [
      | inl h ↦ elim (Bool-cases (is_unapplied applied)) [
        | inl u ↦ let r = rw (h, u) at returned in cc
        | inr u ↦ let r = rw (h, u) at returned in (cc, cc, u)
      ]
      | inr h ↦ let r = rw h at returned in cc
    ]

is_unapplied-some : (status : ApplyStatus) → is_unapplied (some status) ≡ false → status ≡ succeeded
is_unapplied-some status h = ground arith

module _ (Thrown : Type 0) (apply_system : Tables → Result Thrown ApplyStatus × Tables) where
  after_apply-applied :
      (a : Answers) (out : Outcome) (answer : Result Thrown ApplyStatus × Tables)
      (evaluated changes resets : ℕ) (status : Option ApplyStatus)
      → (after_apply Thrown apply_system a out answer).result
        ≡ acquired healthy evaluated changes resets status
      → (status ≡ some succeeded)
        × (answer.0 ≡ ok succeeded)
        × ((after_apply Thrown apply_system a out answer).tables ≡ answer.1)
  unfolding finish
  after_apply-applied a out (throw e, db) evaluated changes resets status returned = cc
  after_apply-applied a out (ok applied, db) evaluated changes resets status returned =
      elim (Bool-cases a.owned_after_apply) [
        | inl h ↦
            let (same, _, clean) =
              finish-healthy a out (some applied) db evaluated changes resets status
                (simp h at returned) in
            let success = is_unapplied-some applied clean in
            (sym same ∙ ap some success, ap (λ s. ok s) success, rw h refl)
        | inr h ↦ let r = rw h at returned in cc
      ]

  after_transaction-applied :
      (a : Answers) (db db' : Tables) (out : Outcome) (evaluated changes resets : ℕ)
      (status : Option ApplyStatus)
      → length out.transitions ≤ out.pending_apply
      → (after_transaction Thrown apply_system a db (ok (out, db'))).result
        ≡ acquired healthy evaluated changes resets status
      → 0 < changes
      → (status ≡ some succeeded)
        × ((apply_system db').0 ≡ ok succeeded)
        × ((after_transaction Thrown apply_system a db (ok (out, db'))).tables
            ≡ (apply_system db').1)
  unfolding after_transaction finish
  after_transaction-applied a db db' out evaluated changes resets status enough returned changed =
      elim (Bool-cases (ltb 0 out.pending_apply)) [
        | inl p ↦ elim (Bool-cases a.owned_before_apply) [
          | inl h ↦
              simp (p, h)
                (after_apply-applied a out (apply_system db') evaluated changes resets status
                  (simp (p, h) at returned))
          | inr h ↦ let r = rw (p, h) at returned in cc
        ]
        | inr p ↦
            let (_, count, _) =
              finish-healthy a out none db' evaluated changes resets status (simp p at returned) in
            absurd (ground (arith, p, count))
      ]

  -- Where the ids of a table are different, a run of the enforcer that reports itself healthy and
  -- changed the status of a user has applied the configuration of the cores with success: the
  -- application, called on the rows that the enforcement has written, returned success, which the
  -- run reports, and the database is the one that the application left.
  pub run_once-applied :
      (hold_ms timeout_ms now : ℕ) (a : Answers) (db : Tables) (evaluated changes resets : ℕ)
      (status : Option ApplyStatus)
      → IsKeyed db.users
      → (run_once Thrown apply_system hold_ms timeout_ms a now db).result
        ≡ acquired healthy evaluated changes resets status
      → 0 < changes
      → let applied = apply_system (written hold_ms timeout_ms now db) in
        (status ≡ some succeeded)
        × (applied.0 ≡ ok succeeded)
        × ((run_once Thrown apply_system hold_ms timeout_ms a now db).tables ≡ applied.1)
  unfolding run_once enforce_limits after_transaction finish
  run_once-applied hold_ms timeout_ms now a db evaluated changes resets status keyed returned
        changed =
      elim (Bool-cases (not a.enabled || not a.lock_acquired)) [
        | inl off ↦ let r = rw off at returned in cc
        | inr on ↦ elim (Bool-cases a.owned_in_transaction) [
          | inl owned ↦
              simp (on, owned)
                (after_transaction-applied a db (written hold_ms timeout_ms now db)
                  (outcome hold_ms timeout_ms now db) evaluated changes resets status
                  (transitions_le_pending hold_ms timeout_ms now db _ _ keyed refl)
                  (simp (on, owned) at returned) changed)
          | inr lost ↦ let r = rw (on, lost) at returned in cc
        ]
      ]
