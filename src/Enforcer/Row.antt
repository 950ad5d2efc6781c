-- ===== src/Enforcer/Row.antt =====
-- What an enforcement makes of one user's row.
use over_vpn.Base.{
  ℕ, ◌<◌, false, not, ◌&&◌, ◌||◌, Option, none, some, ◌≡◌, arith, refl, Bool-cases, inl, inr,
  if◌then◌else◌, is_some, ap, ◌∙◌,
}
use over_vpn.Schema.{User, ResetStrategy, no_reset, daily, monthly, yearly}
use over_vpn.UserDomain.{is_past, calculate_next_reset_at}
use over_vpn.UserDomain.Reset.{next_reset_after}
use over_vpn.Enforcement.{evaluate_enforced_status, over_device_limit}
use over_vpn.Enforcement.Policy.{
  evaluate_enforced_status-again, next_identity_limit_hold_until-again,
}
use over_vpn.Enforcement.Equal.{
  status_eq→eq, reason_eq→eq, date_eq→eq, status_eq_refl, reason_eq_refl, date_eq_refl,
}
use over_vpn.Enforcer.{
  is_no_reset, should_repair_schedule, is_due, with_usage, enforced_status, next_hold, hold_changed,
  status_changed, needs_update, reset_data, status_data, hold_data, updated_user,
}

module _ (hold_ms now : ℕ) where
  -- A row that needs no update is left as it is.
  pub updated_user-unchanged :
      (u : User) (devices : ℕ)
      → needs_update hold_ms now u devices ≡ false
      → updated_user hold_ms now u devices ≡ u
  unfolding updated_user needs_update reset_data status_data hold_data
  updated_user-unchanged u devices h = ground arith

  -- The fields that an enforcement writes.
  pub updated_user-status :
      (u : User) (devices : ℕ)
      → ((updated_user hold_ms now u devices).status
          ≡ (enforced_status hold_ms now u devices).status)
        × ((updated_user hold_ms now u devices).status_reason
            ≡ (enforced_status hold_ms now u devices).status_reason)
  unfolding updated_user reset_data status_data hold_data status_changed
  updated_user-status u devices =
      let enforced = enforced_status hold_ms now u devices in
      ground (
        arith,
        status_eq→eq enforced.status u.status,
        reason_eq→eq enforced.status_reason u.status_reason,
      )

  pub updated_user-hold :
      (u : User) (devices : ℕ)
      → (updated_user hold_ms now u devices).identity_limit_hold_until
        ≡ next_hold hold_ms now u devices
  unfolding updated_user reset_data status_data hold_data hold_changed
  updated_user-hold u devices =
      ground (arith, date_eq→eq (next_hold hold_ms now u devices) u.identity_limit_hold_until)

  -- The fields that an enforcement reads and leaves as they are.
  updated_user-kept :
      (u : User) (devices : ℕ)
      → let v = updated_user hold_ms now u devices in
        let w = with_usage hold_ms now u in
        (v.expire_at ≡ w.expire_at)
        × (v.data_limit_bytes ≡ w.data_limit_bytes)
        × (v.used_upload_bytes ≡ w.used_upload_bytes)
        × (v.used_download_bytes ≡ w.used_download_bytes)
        × (v.device_limit ≡ w.device_limit)
        × (v.reset_strategy ≡ u.reset_strategy)
        × (w.identity_limit_hold_until ≡ u.identity_limit_hold_until)
        × (w.device_limit ≡ u.device_limit)
  unfolding updated_user reset_data status_data hold_data with_usage
  updated_user-kept u devices = ground arith

  updated_user-next_reset :
      (u : User) (devices : ℕ)
      → (updated_user hold_ms now u devices).next_reset_at ≡ (
          if is_due hold_ms now u || should_repair_schedule u
          then calculate_next_reset_at u.reset_strategy now
          else u.next_reset_at)
  unfolding updated_user reset_data status_data hold_data
  updated_user-next_reset u devices = ground arith

  -- A user has a next reset exactly when their strategy has resets, and it lies in the future.
  abbrev pub IsScheduled : ResetStrategy → Option ℕ → Type 0
  IsScheduled no_reset next = next ≡ none
  IsScheduled _ next = (at : ℕ) × (next ≡ some at) × (now < at)

  IsScheduled-next_reset : (s : ResetStrategy) → IsScheduled s (calculate_next_reset_at s now)
  unfolding calculate_next_reset_at
  IsScheduled-next_reset no_reset = refl
  IsScheduled-next_reset daily = next_reset_after daily now (ground arith)
  IsScheduled-next_reset monthly = next_reset_after monthly now (ground arith)
  IsScheduled-next_reset yearly = next_reset_after yearly now (ground arith)

  IsScheduled-kept :
      (s : ResetStrategy) (next : Option ℕ)
      → (not (is_no_reset s) && is_past next now) ≡ false
      → ((is_no_reset s && is_some next) || (not (is_no_reset s) && not (is_some next))) ≡ false
      → IsScheduled s next
  IsScheduled-kept no_reset none h k = refl
  IsScheduled-kept no_reset (some at) h k = cc
  IsScheduled-kept daily none h k = cc
  IsScheduled-kept daily (some at) h k = (at, refl, ground arith)
  IsScheduled-kept monthly none h k = cc
  IsScheduled-kept monthly (some at) h k = (at, refl, ground arith)
  IsScheduled-kept yearly none h k = cc
  IsScheduled-kept yearly (some at) h k = (at, refl, ground arith)

  -- After an enforcement a user has a next reset exactly when their strategy has resets, and it
  -- lies in the future.
  pub updated_user-IsScheduled :
      (u : User) (devices : ℕ)
      → let v = updated_user hold_ms now u devices in IsScheduled v.reset_strategy v.next_reset_at
  unfolding is_due should_repair_schedule
  updated_user-IsScheduled u devices =
      let (_, _, _, _, _, same, _, _) = updated_user-kept u devices in
      rw (same, updated_user-next_reset u devices)
        (elim (Bool-cases (is_due hold_ms now u || should_repair_schedule u)) [
          | inl h ↦ rw h (IsScheduled-next_reset u.reset_strategy)
          | inr h ↦
              rw h (IsScheduled-kept u.reset_strategy u.next_reset_at (ground arith) (ground arith))
        ])

  settled_schedule :
      (s : ResetStrategy) (next : Option ℕ)
      → IsScheduled s next
      → ((not (is_no_reset s) && is_past next now) ≡ false)
        × (((is_no_reset s && is_some next) || (not (is_no_reset s) && not (is_some next))) ≡ false)
  settled_schedule no_reset next h = rw h (refl, refl)
  settled_schedule daily next (at, h, later) = rw h (ground arith, refl)
  settled_schedule monthly next (at, h, later) = rw h (ground arith, refl)
  settled_schedule yearly next (at, h, later) = rw h (ground arith, refl)

  updated_user-settled_schedule :
      (u : User) (devices : ℕ)
      → (is_due hold_ms now (updated_user hold_ms now u devices) ≡ false)
        × (should_repair_schedule (updated_user hold_ms now u devices) ≡ false)
  unfolding is_due should_repair_schedule
  updated_user-settled_schedule u devices =
      let v = updated_user hold_ms now u devices in
      settled_schedule v.reset_strategy v.next_reset_at (updated_user-IsScheduled u devices)

  with_usage-settled : (u : User) → is_due hold_ms now u ≡ false → with_usage hold_ms now u ≡ u
  unfolding with_usage
  with_usage-settled u h = rw h refl

  enforced_status-again :
      (u : User) (devices : ℕ)
      → enforced_status hold_ms now (updated_user hold_ms now u devices) devices
        ≡ enforced_status hold_ms now u devices
  unfolding enforced_status next_hold
  enforced_status-again u devices =
      let v = updated_user hold_ms now u devices in
      let w = with_usage hold_ms now u in
      let (e1, e2, e3, e4, e5, _, h, l) = updated_user-kept u devices in
      let (s, r) = updated_user-status u devices in
      let kept = updated_user-hold u devices in
      ap (λ x. evaluate_enforced_status x devices now)
        (with_usage-settled v ((updated_user-settled_schedule u devices).0))
      ∙ evaluate_enforced_status-again w v devices hold_ms now e1 e2 e3 e4 e5 s r (simp (h, l) kept)

  next_hold-again :
      (u : User) (devices : ℕ)
      → next_hold hold_ms now (updated_user hold_ms now u devices) devices
        ≡ (updated_user hold_ms now u devices).identity_limit_hold_until
  unfolding next_hold
  next_hold-again u devices =
      let (_, _, _, _, e5, _, _, l) = updated_user-kept u devices in
      let status = enforced_status-again u devices in
      rw (status, e5, l, updated_user-hold u devices)
        (next_identity_limit_hold_until-again (enforced_status hold_ms now u devices)
          (over_device_limit u.device_limit devices) hold_ms now u.identity_limit_hold_until)

  -- The row that an enforcement writes needs no update at the same instant with the same devices.
  pub updated_user-settled :
      (u : User) (devices : ℕ)
      → needs_update hold_ms now (updated_user hold_ms now u devices) devices ≡ false
  unfolding needs_update status_changed hold_changed
  updated_user-settled u devices =
      let v = updated_user hold_ms now u devices in
      let (not_due, no_repair) = updated_user-settled_schedule u devices in
      let status = enforced_status-again u devices in
      let (s, r) = updated_user-status u devices in
      let hold = next_hold-again u devices in
      rw
        (
          not_due,
          no_repair,
          hold,
          date_eq_refl v.identity_limit_hold_until,
          status,
          s,
          r,
          status_eq_refl (enforced_status hold_ms now u devices).status,
          reason_eq_refl (enforced_status hold_ms now u devices).status_reason,
        )
        refl
