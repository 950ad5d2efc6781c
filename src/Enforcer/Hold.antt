-- ===== src/Enforcer/Hold.antt =====
-- The mark of a changed row, and how long a device limit holds.
use over_vpn.Base.{
  ℕ, ◌+◌, ◌<◌, true, false, some, ◌≡◌, ◌↔◌, ◌⊎◌, arith, refl, Bool-cases, inl, inr, if◌then◌else◌,
  ◌∙◌, sym,
}
use over_vpn.Schema.{User, limited, device}
use over_vpn.UserDomain.{is_past, quota_used}
use over_vpn.Enforcement.{
  evaluate_enforced_status, over_device_limit, next_identity_limit_hold_until,
}
use over_vpn.Enforcement.Equal.{status_eq→eq, reason_eq→eq, status_eq_refl, reason_eq_refl}
use over_vpn.Enforcer.{
  enforced_status, next_hold, status_changed, updated_user, reset_data, status_data, hold_data,
}
use over_vpn.Enforcer.Row.{updated_user-status, updated_user-hold}

module _ (hold_ms now : ℕ) where
  pub updated_user-mark :
      (u : User) (devices : ℕ)
      → let v = updated_user hold_ms now u devices in
        let changed = status_changed hold_ms now u devices in
        (v.revision ≡ (if changed then u.revision + 1 else u.revision))
        × (v.needs_apply ≡ (if changed then true else u.needs_apply))
  unfolding updated_user reset_data status_data hold_data
  updated_user-mark u devices = ground arith

  status_changed_iff :
      (u : User) (devices : ℕ)
      → let v = updated_user hold_ms now u devices in
        (status_changed hold_ms now u devices ≡ false)
        ↔ ((v.status ≡ u.status) × (v.status_reason ≡ u.status_reason))
  unfolding status_changed
  status_changed_iff u devices =
      let enforced = enforced_status hold_ms now u devices in
      let (s, r) = updated_user-status hold_ms now u devices in
      (
        λ h. (
          s ∙ status_eq→eq enforced.status u.status (ground arith),
          r ∙ reason_eq→eq enforced.status_reason u.status_reason (ground arith),
        ),
        λ (s', r').
            simp (sym s ∙ s', sym r ∙ r', status_eq_refl u.status, reason_eq_refl u.status_reason)
              refl,
      )

  -- An enforcement that changes the status or the reason of a row marks it for the cores and
  -- increments its revision; any other keeps the mark and the revision.
  pub updated_user-revision :
      (u : User) (devices : ℕ)
      → let v = updated_user hold_ms now u devices in
        ((v.status ≡ u.status)
          × (v.status_reason ≡ u.status_reason)
          × (v.revision ≡ u.revision)
          × (v.needs_apply ≡ u.needs_apply))
        ⊎ (¬ ((v.status ≡ u.status) × (v.status_reason ≡ u.status_reason))
            × (v.revision ≡ u.revision + 1)
            × (v.needs_apply ≡ true))
  updated_user-revision u devices =
      let (revision, mark) = updated_user-mark u devices in
      let same = status_changed_iff u devices in
      elim (Bool-cases (status_changed hold_ms now u devices)) [
        | inl h ↦
            inr (λ equal. let off = same.1 equal in cc, revision ∙ rw h refl, mark ∙ rw h refl)
        | inr h ↦ let (s, r) = same.0 h in inl (s, r, revision ∙ rw h refl, mark ∙ rw h refl)
      ]

  -- A row that an enforcement limits for too many devices is limited at a later instant, with
  -- devices within the limit, time left and quota left, exactly while the hold lasts.
  pub device_hold_iff :
      (u : User) (devices later fewer : ℕ)
      → let v = updated_user hold_ms now u devices in
        (enforced_status hold_ms now u devices).status ≡ limited
        → (enforced_status hold_ms now u devices).status_reason ≡ some device
        → over_device_limit u.device_limit devices ≡ true
        → is_past v.expire_at later ≡ false
        → quota_used v.data_limit_bytes v.used_upload_bytes v.used_download_bytes ≡ false
        → over_device_limit v.device_limit fewer ≡ false
        → ((evaluate_enforced_status v fewer later).status ≡ limited) ↔ (later < now + hold_ms)
  unfolding next_hold next_identity_limit_hold_until evaluate_enforced_status
  device_hold_iff u devices later fewer s r over p q o =
      let (s', r') = updated_user-status hold_ms now u devices in
      let hold = updated_user-hold hold_ms now u devices in
      let status = s' ∙ s in
      let reason = r' ∙ r in
      let until : (updated_user hold_ms now u devices).identity_limit_hold_until
          ≡ some (now + hold_ms) =
        hold ∙ simp (s, r, over) refl in
      rw (status, reason, p, q, o, until) (ground arith)
