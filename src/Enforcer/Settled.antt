-- ===== src/Enforcer/Settled.antt =====
-- A second transaction of the enforcer at the same instant.
use over_vpn.Base.{
  ℕ, true, false, not, List, [], ◌∷◌, filter, Text, ◌≡◌, refl, Bool-cases, inl, inr, ap, ◌∙◌, sym,
  All, is_some, get, length, ok,
}
use mathlib.Core.Path.{subst}
use over_vpn.Schema.{User}
use over_vpn.Enforcement.{count_identities_by_user, devices_of}
use over_vpn.Enforcer.{
  Tables, Tally, Outcome, needs_update, enforce_user, enforce_users, active_devices, is_live,
  enforce_loop, enforce_limits, online_identities,
}
use over_vpn.Enforcer.Row.{updated_user-settled}
use over_vpn.Enforcer.Table.{
  IsKeyed, enforced_row, enforced_table, identities_of, enforce_loop-users, updated_user-id,
  updated_user-deleted_at,
}

module _ (hold_ms now : ℕ) (identities : List (Text × List Text)) where
  -- A loop over users that need no update changes nothing.
  enforce_users-idle :
      (us : List User) (t : Tally)
      → All (λ u. needs_update hold_ms now u (active_devices identities u) ≡ false) us
      → enforce_users hold_ms now identities us t ≡ t
  unfolding enforce_users enforce_user
  enforce_users-idle [] t h = refl
  enforce_users-idle (u ∷ us) t (h, rest) = rw h (enforce_users-idle us t rest)

  is_live-row : (u : User) → is_live (enforced_row hold_ms now identities u) ≡ is_live u
  is_live-row u =
      ap (λ d. not (is_some d))
        (updated_user-deleted_at hold_ms now identities u (active_devices identities u))

  enforced_row-settled :
      (u : User)
      → let v = enforced_row hold_ms now identities u in
        needs_update hold_ms now v (active_devices identities v) ≡ false
  enforced_row-settled u =
      let same_id = updated_user-id hold_ms now identities u (active_devices identities u) in
      ap
        (λ id.
          needs_update hold_ms now (enforced_row hold_ms now identities u)
            (length (devices_of (get id identities))))
        same_id
      ∙ updated_user-settled hold_ms now u (active_devices identities u)

  enforced_table-settled :
      (us : List User)
      → All
          (λ u. needs_update hold_ms now u (active_devices identities u) ≡ false)
          (filter is_live (enforced_table hold_ms now identities us))
  enforced_table-settled [] = tt
  enforced_table-settled (u ∷ us) = elim (Bool-cases (is_live u)) [
    | inl l ↦
        let live = is_live-row u ∙ l in
        rw (l, live) (enforced_row-settled u, enforced_table-settled us)
    | inr l ↦ rw (l, l) (enforced_table-settled us)
  ]

-- The loop's variables where nothing was written.
abbrev pub untouched : Tables → Tally
untouched db = record {
  users = db.users;
  audit = db.audit;
  transitions = [];
  resets = 0;
  schedule_repairs = 0;
}

module _ (hold_ms timeout_ms now : ℕ) where
  enforce_loop-again :
      (db db' : Tables)
      → IsKeyed db.users
      → db'.users ≡ (enforce_loop hold_ms timeout_ms now db).users
      → db'.sessions ≡ db.sessions
      → enforce_loop hold_ms timeout_ms now db' ≡ untouched db'
  unfolding enforce_loop
  enforce_loop-again db db' keyed users sessions =
      let identities = identities_of hold_ms timeout_ms now db in
      let written = users ∙ enforce_loop-users hold_ms timeout_ms now db keyed in
      ap
        (λ s.
          enforce_users hold_ms now (count_identities_by_user (online_identities timeout_ms now s))
            (filter is_live db'.users) (untouched db'))
        sessions
      ∙ enforce_users-idle hold_ms now identities (filter is_live db'.users) (untouched db') (
          subst
            (λ us.
              All (λ u. needs_update hold_ms now u (active_devices identities u) ≡ false)
                (filter is_live us))
            (sym written) (enforced_table-settled hold_ms now identities db.users))

  -- Where the ids of a table are different, a transaction of the enforcer that runs again at the
  -- same instant on what it wrote returns, changes no row, and reports no transition, no reset and
  -- no repaired schedule.
  pub enforce_limits_twice :
      (db db' : Tables) (out : Outcome)
      → IsKeyed db.users
      → enforce_limits hold_ms timeout_ms now true db ≡ ok (out, db')
      → (again : Outcome) × (enforce_limits hold_ms timeout_ms now true db' ≡ ok (again, db'))
        × (again.transitions ≡ [])
        × (again.resets ≡ 0)
        × (again.schedule_repairs ≡ 0)
  unfolding enforce_limits
  enforce_limits_twice db db' out keyed returned =
      let users : (enforce_loop hold_ms timeout_ms now db).users ≡ db'.users = cc in
      let sessions : db.sessions ≡ db'.sessions = cc in
      let idle = enforce_loop-again db db' keyed (sym users) (sym sessions) in
      rw idle (_, refl, refl, refl, refl)
