-- ===== src/Enforcer/Pending.antt =====
-- The rows that wait for the cores after a transaction of the enforcer.
use over_vpn.Base.{
  ℕ, ◌+◌, ◌≤◌, Bool, true, false, List, [], ◌∷◌, filter, length, length-append, Text, ◌≡◌, arith,
  Bool-cases, inl, inr, if◌then◌else◌, ap, ◌∙◌, ok,
}
use over_vpn.Schema.{User}
use over_vpn.Enforcer.{
  Tables, Tally, Outcome, needs_update, status_changed, updated_user, enforce_user, enforce_users,
  count_reset, count_transition, active_devices, is_live, enforce_loop, enforce_limits, write_user,
}
use over_vpn.Enforcer.Hold.{updated_user-mark}
use over_vpn.Enforcer.Settled.{untouched}
use over_vpn.Enforcer.Table.{
  IsKeyed, enforced_row, enforced_table, identities_of, enforce_loop-users,
}

length-filter_le :
    (p : User → Bool) (u : User) (us : List User)
    → length (filter p us) ≤ length (filter p (u ∷ us))
length-filter_le p u us = ground arith

module _ (hold_ms now : ℕ) (identities : List (Text × List Text)) where
  -- The users of a list whose status changes.
  abbrev changes : List User → ℕ
  changes us = length (filter (λ u. status_changed hold_ms now u (active_devices identities u)) us)

  count_reset-transitions :
      (u updated : User) (t : Tally)
      → (count_reset hold_ms now u updated t).transitions ≡ t.transitions
  count_reset-transitions u updated t = ground arith

  count_transition-transitions :
      (u : User) (devices : ℕ) (t : Tally)
      → length (count_transition hold_ms now u devices t).transitions
        ≡ length t.transitions + (if status_changed hold_ms now u devices then 1 else 0)
  count_transition-transitions u devices t =
      elim (Bool-cases (status_changed hold_ms now u devices)) [
        | inl h ↦ rw h (length-append t.transitions _)
        | inr h ↦ rw h (omega arith)
      ]

  enforce_user-transitions :
      (u : User) (devices : ℕ) (t : Tally)
      → length (enforce_user hold_ms now u devices t).transitions
        ≡ length t.transitions + (if status_changed hold_ms now u devices then 1 else 0)
  unfolding enforce_user needs_update
  enforce_user-transitions u devices t = elim (Bool-cases (needs_update hold_ms now u devices)) [
    | inl h ↦
        let updated = updated_user hold_ms now u devices in
        let written = record t { users = write_user updated t.users } in
        rw h (
          count_transition-transitions u devices (count_reset hold_ms now u updated written)
          ∙ ap (λ ts. length ts + (if status_changed hold_ms now u devices then 1 else 0))
              (count_reset-transitions u updated written))
    | inr h ↦
        let same : status_changed hold_ms now u devices ≡ false = ground arith in
        rw (h, same) (omega arith)
  ]

  enforce_users-transitions :
      (us : List User) (t : Tally)
      → length (enforce_users hold_ms now identities us t).transitions
        ≡ length t.transitions + changes us
  unfolding enforce_users
  enforce_users-transitions [] t = omega arith
  enforce_users-transitions (u ∷ us) t = ground (
    arith,
    enforce_users-transitions us (enforce_user hold_ms now u (active_devices identities u) t),
    enforce_user-transitions u (active_devices identities u) t,
  )

  changes_le_pending :
      (us : List User)
      → changes (filter is_live us)
        ≤ length (filter (λ u. u.needs_apply) (enforced_table hold_ms now identities us))
  changes_le_pending [] = omega arith
  changes_le_pending (u ∷ us) =
      let (_, mark) = updated_user-mark hold_ms now u (active_devices identities u) in
      elim (Bool-cases (is_live u)) [
        | inl l ↦ elim (Bool-cases (status_changed hold_ms now u (active_devices identities u))) [
          | inl c ↦
              let marked = mark ∙ ap (λ b. if b then true else u.needs_apply) c in
              rw (l, c, marked) (omega (arith, changes_le_pending us))
          | inr c ↦
              rw (l, c)
                (omega (
                  arith,
                  changes_le_pending us,
                  length-filter_le (λ v. v.needs_apply) (enforced_row hold_ms now identities u)
                      (enforced_table hold_ms now identities us),
                ))
        ]
        | inr l ↦ rw l (
            omega (
              arith,
              changes_le_pending us,
              length-filter_le (λ v. v.needs_apply) u (enforced_table hold_ms now identities us),
            ))
      ]

-- Where the ids of a table are different, a transaction of the enforcer that returns leaves at
-- least as many rows that wait for the cores as it reports transitions.
pub transitions_le_pending :
    (hold_ms timeout_ms now : ℕ) (db db' : Tables) (out : Outcome)
    → IsKeyed db.users
    → enforce_limits hold_ms timeout_ms now true db ≡ ok (out, db')
    → length out.transitions ≤ out.pending_apply
unfolding enforce_limits enforce_loop
transitions_le_pending hold_ms timeout_ms now db db' out keyed returned =
    let t = enforce_loop hold_ms timeout_ms now db in
    let identities = identities_of hold_ms timeout_ms now db in
    let transitions : t.transitions ≡ out.transitions = cc in
    let pending : length (filter (λ u. u.needs_apply) t.users) ≡ out.pending_apply = cc in
    let users = enforce_loop-users hold_ms timeout_ms now db keyed in
    omega (
      arith,
      ap length transitions,
      pending,
      ap (λ us. length (filter (λ u. u.needs_apply) us)) users,
      changes_le_pending hold_ms now identities db.users,
      enforce_users-transitions hold_ms now identities (filter is_live db.users) (untouched db),
    )
