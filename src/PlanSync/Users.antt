-- ===== src/PlanSync/Users.antt =====
-- The marks of the users in a synchronisation: only those of its user change, as an update of an
-- assignment changes them.
use over_vpn.Base.{
  ℕ, List, [], ◌∷◌, any, Option, none, some, Text, text_eq, Result, Bool-cases, inl, inr, Ensures,
  Ensures-bind, Ensures-after,
}
use over_vpn.CoreApply.{UserMark, InboundMark}
use over_vpn.PlanSync.{
  Assignment, Db, SyncError, unique, row_for, inbound_row, bump_user, changed_row,
  mark_assignment_changed, is_superfluous, disable_rest, enable_in, is_current, enable_one,
  enable_wanted, sync_user,
}

module _ (user : Text) (P : List UserMark → Type 0)
    (bump : (us : List UserMark) → P us → P (bump_user user us)) where
  abbrev OfUsers : Db → Type 0
  OfUsers db = P db.marks.users

  changed_row-OfUsers :
      (o : Option InboundMark) (inbound : Text) (db : Db)
      → OfUsers db
      → Ensures OfUsers (changed_row o inbound user db)
  changed_row-OfUsers none inbound db p = tt
  changed_row-OfUsers (some i) inbound db p =
      elim (Bool-cases (any (λ u. text_eq u.id user) db.marks.users)) [
        | inl there ↦ simp there (bump db.marks.users p)
        | inr absent ↦ simp absent tt
      ]

  mark_assignment_changed-OfUsers :
      (inbound : Text) (db : Db)
      → OfUsers db
      → Ensures OfUsers (mark_assignment_changed inbound user db)
  unfolding mark_assignment_changed
  mark_assignment_changed-OfUsers inbound db p =
      changed_row-OfUsers (inbound_row inbound db.marks.inbounds) inbound db p

  disable_rest-OfUsers :
      (now : ℕ) (wanted : List Text) (rows : List Assignment) (db : Db)
      → OfUsers db
      → Ensures OfUsers (disable_rest user now wanted rows db)
  unfolding disable_rest
  disable_rest-OfUsers now wanted [] db p = p
  disable_rest-OfUsers now wanted (a ∷ more) db p =
      elim (Bool-cases (is_superfluous user now wanted a)) [
        | inl drop ↦ simp drop (
            Ensures-bind OfUsers OfUsers _ _ (mark_assignment_changed-OfUsers a.inbound_id _ p)
              (λ after q. disable_rest-OfUsers now wanted more after q))
        | inr keep ↦ simp keep (disable_rest-OfUsers now wanted more db p)
      ]

  module _ (now : ℕ) (credential : InboundMark → Result SyncError Text)
      (fresh_id : Text → Text) where
    enable_in-OfUsers :
        (o : Option InboundMark) (inbound : Text) (current : Option Assignment) (db : Db)
        → OfUsers db
        → Ensures OfUsers (enable_in user now credential fresh_id o inbound current db)
    enable_in-OfUsers none inbound current db p = tt
    enable_in-OfUsers (some i) inbound current db p =
        Ensures-after OfUsers (credential i) _
          (λ secret. mark_assignment_changed-OfUsers inbound _ p)

    enable_one-OfUsers :
        (inbound : Text) (current : Option Assignment) (db : Db)
        → OfUsers db
        → Ensures OfUsers (enable_one user now credential fresh_id inbound current db)
    unfolding enable_one
    enable_one-OfUsers inbound current db p =
        elim (Bool-cases (is_current user now credential fresh_id current)) [
          | inl on ↦ simp on p
          | inr off ↦ simp off (enable_in-OfUsers _ inbound current db p)
        ]

    enable_wanted-OfUsers :
        (ids : List Text) (rows : List Assignment) (db : Db)
        → OfUsers db
        → Ensures OfUsers (enable_wanted user now credential fresh_id ids rows db)
    unfolding enable_wanted
    enable_wanted-OfUsers [] rows db p = p
    enable_wanted-OfUsers (i ∷ is) rows db p =
        Ensures-bind OfUsers OfUsers _ _ (enable_one-OfUsers i (row_for i rows) db p)
          (λ after q. enable_wanted-OfUsers is rows after q)

    -- What each bump of the user keeps, a synchronisation keeps.
    pub sync_user-users :
        (ids : List Text) (db : Db)
        → P db.marks.users
        → Ensures (λ after. P after.marks.users) (sync_user user now credential fresh_id ids db)
    unfolding sync_user
    sync_user-users ids db p =
        Ensures-bind OfUsers OfUsers _ _ (disable_rest-OfUsers now (unique ids) _ db p)
          (λ after q. enable_wanted-OfUsers (unique ids) _ after q)
