-- ===== src/Enforcer/Table.antt =====
-- What a transaction of the enforcer makes of the table of users.
use over_vpn.Base.{
  ℕ, Bool, true, false, ◌&&◌, List, [], ◌∷◌, map, filter, Text, text_eq, text_eq_iff, text_eq_refl,
  ◌≡◌, ◌≢◌, arith, refl, Bool-cases, inl, inr, if◌then◌else◌, ap, ◌∙◌, sym, All,
}
use mathlib.Core.Path.{subst}
use mathlib.Core.List.{map-id}
use over_vpn.Schema.{User}
use over_vpn.Enforcement.{count_identities_by_user}
use over_vpn.Enforcer.{
  Tables, Tally, needs_update, updated_user, reset_data, status_data, hold_data, enforce_user,
  enforce_users, active_devices, write_user, is_live, enforce_loop, online_identities,
}
use over_vpn.Enforcer.Row.{updated_user-unchanged}

-- The ids of a table are different.
abbrev pub IsKeyed : List User → Type 0
IsKeyed [] = Unit
IsKeyed (u ∷ us) = All (λ v. u.id ≢ v.id) us × IsKeyed us

text_eq-of_ne : (s t : Text) → s ≢ t → text_eq s t ≡ false
text_eq-of_ne s t h = ground (arith, text_eq_iff s t)

and_false : (b : Bool) → (b && false) ≡ false
and_false b = ground arith

module _ (hold_ms now : ℕ) (identities : List (Text × List Text)) where
  -- The row of a user after an enforcement with the devices of the open sessions.
  abbrev pub enforced_row : User → User
  enforced_row u = updated_user hold_ms now u (active_devices identities u)

  -- What the loop makes of one row.
  abbrev row_after : List User → User → User
  row_after [] row = row
  row_after (u ∷ us) row = row_after us (
      if needs_update hold_ms now u (active_devices identities u) && text_eq row.id u.id
      then enforced_row u
      else row)

  pub updated_user-id : (u : User) (devices : ℕ) → (updated_user hold_ms now u devices).id ≡ u.id
  unfolding updated_user reset_data status_data hold_data
  updated_user-id u devices = ground arith

  pub updated_user-deleted_at :
      (u : User) (devices : ℕ) → (updated_user hold_ms now u devices).deleted_at ≡ u.deleted_at
  unfolding updated_user reset_data status_data hold_data
  updated_user-deleted_at u devices = ground arith

  enforce_user-users :
      (u : User) (devices : ℕ) (t : Tally)
      → (enforce_user hold_ms now u devices t).users ≡ (
          if needs_update hold_ms now u devices
          then write_user (updated_user hold_ms now u devices) t.users
          else t.users)
  unfolding enforce_user
  enforce_user-users u devices t = ground arith

  row_after-step :
      (us : List User) (u row : User)
      → needs_update hold_ms now u (active_devices identities u) ≡ true
      → row_after us (if text_eq row.id (enforced_row u).id then enforced_row u else row)
        ≡ row_after (u ∷ us) row
  row_after-step us u row h = rw (h, updated_user-id u (active_devices identities u)) refl

  map-row :
      (us : List User) (u : User) (rows : List User)
      → needs_update hold_ms now u (active_devices identities u) ≡ true
      → map (row_after us) (write_user (enforced_row u) rows) ≡ map (row_after (u ∷ us)) rows
  map-row us u [] h = refl
  map-row us u (row ∷ rows) h = rw (row_after-step us u row h, map-row us u rows h) refl

  map-same :
      (us : List User) (u : User) (rows : List User)
      → needs_update hold_ms now u (active_devices identities u) ≡ false
      → map (row_after us) rows ≡ map (row_after (u ∷ us)) rows
  map-same us u [] h = refl
  map-same us u (row ∷ rows) h = rw (h, map-same us u rows h) refl

  enforce_users-users :
      (us : List User) (t : Tally)
      → (enforce_users hold_ms now identities us t).users ≡ map (row_after us) t.users
  unfolding enforce_users
  enforce_users-users [] t = sym (map-id t.users)
  enforce_users-users (u ∷ us) t =
      let devices = active_devices identities u in
      let written = enforce_user-users u devices t in
      enforce_users-users us (enforce_user hold_ms now u devices t)
      ∙ ap (map (row_after us)) written
      ∙ elim (Bool-cases (needs_update hold_ms now u devices)) [
        | inl h ↦ rw h (map-row us u t.users h)
        | inr h ↦ rw h (map-same us u t.users h)
      ]

  -- A row that no user of the loop names keeps its value.
  row_after-other :
      (us : List User) (row : User) → All (λ u. row.id ≢ u.id) us → row_after us row ≡ row
  row_after-other [] row h = refl
  row_after-other (u ∷ us) row (d, h) =
      rw
        (
          text_eq-of_ne row.id u.id d,
          and_false (needs_update hold_ms now u (active_devices identities u)),
        )
        (row_after-other us row h)

  live_others : (P : User → Type 0) (us : List User) → All P us → All P (filter is_live us)
  live_others P [] h = h
  live_others P (u ∷ us) (p, h) = elim (Bool-cases (is_live u)) [
    | inl l ↦ rw l (p, live_others P us h)
    | inr l ↦ rw l (live_others P us h)
  ]

  -- A transaction writes the enforced row of each user that is not deleted, and no other row.
  abbrev pub enforced_table : List User → List User
  enforced_table = map (λ u. if is_live u then enforced_row u else u)

  write_self :
      (u : User)
      → (if needs_update hold_ms now u (active_devices identities u) && true
          then enforced_row u
          else u)
        ≡ enforced_row u
  write_self u = elim (Bool-cases (needs_update hold_ms now u (active_devices identities u))) [
    | inl h ↦ rw h refl
    | inr h ↦ rw h (sym (updated_user-unchanged hold_ms now u _ h))
  ]

  row_after_self :
      (u : User) (us : List User)
      → All (λ v. u.id ≢ v.id) us
      → row_after (u ∷ us) u ≡ enforced_row u
  row_after_self u us others =
      let same_id = updated_user-id u (active_devices identities u) in
      rw (text_eq_refl u.id, write_self u)
        (row_after-other us (enforced_row u)
          (subst (λ i. All (λ v. i ≢ v.id) us) (sym same_id) others))

  row_after-head :
      (u : User) (us : List User)
      → All (λ v. u.id ≢ v.id) us
      → row_after (filter is_live (u ∷ us)) u ≡ (if is_live u then enforced_row u else u)
  row_after-head u us h =
      let others = live_others (λ v. u.id ≢ v.id) us h in
      elim (Bool-cases (is_live u)) [
        | inl l ↦ rw l (row_after_self u (filter is_live us) others)
        | inr l ↦ rw l (row_after-other (filter is_live us) u others)
      ]

  row_after-skip :
      (u : User) (us : List User) (row : User)
      → u.id ≢ row.id
      → row_after (u ∷ us) row ≡ row_after us row
  row_after-skip u us row d =
      rw
        (
          text_eq-of_ne row.id u.id (λ e. d (sym e)),
          and_false (needs_update hold_ms now u (active_devices identities u)),
        )
        refl

  row_after-filter :
      (u : User) (us : List User) (row : User)
      → u.id ≢ row.id
      → row_after (filter is_live (u ∷ us)) row ≡ row_after (filter is_live us) row
  row_after-filter u us row d = elim (Bool-cases (is_live u)) [
    | inl l ↦ rw l (row_after-skip u (filter is_live us) row d)
    | inr l ↦ rw l refl
  ]

  row_after-tail :
      (u : User) (us rows : List User)
      → All (λ v. u.id ≢ v.id) rows
      → map (row_after (filter is_live (u ∷ us))) rows ≡ map (row_after (filter is_live us)) rows
  row_after-tail u us [] h = refl
  row_after-tail u us (row ∷ rows) (d, h) =
      let first = row_after-filter u us row d in
      let rest = row_after-tail u us rows h in λ i. first i ∷ rest i

  enforce_table :
      (users : List User)
      → IsKeyed users
      → map (row_after (filter is_live users)) users ≡ enforced_table users
  enforce_table [] h = refl
  enforce_table (u ∷ us) (h, keyed) =
      let first = row_after-head u us h in
      let rest = row_after-tail u us us h ∙ enforce_table us keyed in λ i. first i ∷ rest i

module _ (hold_ms timeout_ms now : ℕ) where
  abbrev pub identities_of : Tables → List (Text × List Text)
  identities_of db = count_identities_by_user (online_identities timeout_ms now db.sessions)

  -- Where the ids of a table are different, the loop of the enforcer writes the enforced row of
  -- each user that is not deleted, and no other row.
  pub enforce_loop-users :
      (db : Tables)
      → IsKeyed db.users
      → (enforce_loop hold_ms timeout_ms now db).users
        ≡ enforced_table hold_ms now (identities_of db) db.users
  unfolding enforce_loop
  enforce_loop-users db keyed =
      enforce_users-users hold_ms now (identities_of db) (filter is_live db.users) _
      ∙ enforce_table hold_ms now (identities_of db) db.users keyed
