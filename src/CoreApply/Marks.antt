-- ===== src/CoreApply/Marks.antt =====
-- An application on this host unmarks only what its configurations contain.
pub mod Kept
use mathlib.Core.Path.{subst}
use over_vpn.Base.{
  ℕ, Bool, true, false, not, ◌&&◌, ◌||◌, List, [], ◌∷◌, map, filter, Option, none, some, Text,
  text_eq, text_eq_iff, if◌then◌else◌, ◌==◌, ==_iff, All, ◌≡◌, ◌≢◌, ◌⊎◌, refl, arith, ap, ◌∙◌, sym,
  Bool-cases, inl, inr,
}
use over_vpn.Enforcer.Run.{ApplyStatus, succeeded, failed, rolled_back}
use over_vpn.CoreApply.{
  Revision, UserMark, InboundMark, MarkTables, DesiredState, EngineOutcome, Db, is_status,
  unmark_user, mark_user_revisions_applied, unmark_inbound, mark_inbound_revisions_applied,
  set_revision, set_revisions, collect_revisions, unique_user_revisions,
}
use over_vpn.CoreApply.Local.{
  is_succeeded, write_engine, write_engines, commit, conclude, status_of, all_succeeded,
}
use Kept.{
  Member, ApartOf, InboundApart, mark_user_revisions_applied-keeps,
  mark_inbound_revisions_applied-keeps, collect_revisions-Apart, All-states,
}

write_engine-users :
    (proxy : Option Text) (id : Text) (o : EngineOutcome) (s : Option DesiredState)
    (h : Option Text) (n : Option ℕ) (db : Db)
    → (write_engine proxy id o s h n db).marks.users ≡ db.marks.users
write_engine-users proxy id o none h n db = refl
write_engine-users proxy id o (some s) none n db = refl
write_engine-users proxy id o (some s) (some h) none db = refl
write_engine-users proxy id o (some s) (some h) (some n) db = refl

-- The engines' writes leave the users.
write_engines-users :
    (proxy : Option Text) (id : Text) (os : List EngineOutcome) (db : Db)
    → (write_engines proxy id os db).marks.users ≡ db.marks.users
unfolding write_engines
write_engines-users proxy id [] db = refl
write_engines-users proxy id (o ∷ os) db =
    write_engines-users proxy id os _
    ∙ write_engine-users proxy id o o.state o.rendered_hash o.config_revision db

write_engine-keeps :
    (i : InboundMark) (proxy : Option Text) (id : Text) (o : EngineOutcome)
    (s : Option DesiredState) (h : Option Text) (n : Option ℕ) (db : Db)
    → InboundApart i.id i.revision s
    → Member i db.marks.inbounds
    → Member i (write_engine proxy id o s h n db).marks.inbounds
write_engine-keeps i proxy id o none h n db d m = m
write_engine-keeps i proxy id o (some s) none n db d m = m
write_engine-keeps i proxy id o (some s) (some h) none db d m = m
write_engine-keeps i proxy id o (some s) (some h) (some n) db d m =
    mark_inbound_revisions_applied-keeps i s.inbound_revisions db.marks.inbounds d m

write_engines-keeps :
    (i : InboundMark) (proxy : Option Text) (id : Text) (os : List EngineOutcome) (db : Db)
    → All (InboundApart i.id i.revision) (map (λ o. o.state) os)
    → Member i db.marks.inbounds
    → Member i (write_engines proxy id os db).marks.inbounds
unfolding write_engines
write_engines-keeps i proxy id [] db d m = m
write_engines-keeps i proxy id (o ∷ os) db (d, ds) m =
    write_engines-keeps i proxy id os _ ds
      (write_engine-keeps i proxy id o o.state o.rendered_hash o.config_revision db d m)

either_marks :
    (P : MarkTables → Type 0) (b : Bool) (x y : Db)
    → P x.marks
    → P y.marks
    → P (if b then x else y).marks
either_marks P true x y p q = p
either_marks P false x y p q = q

module _ (sha256 : Text → Text) (text_after : Text → Text → Bool) (proxy : Option Text) (id : Text)
    (os : List EngineOutcome) (started completed : ℕ) (db : Db) where
  written : Db
  written = write_engines proxy id (filter is_succeeded os) db

  abbrev marked : Bool → Db
  marked whole =
      if whole then all_succeeded sha256 text_after id os started completed written else written

  marked-keeps :
      (u : UserMark)
      → All (λ o. ApartOf u.id u.revision o.state) os
      → Member u db.marks.users
      → (b : Bool) → Member u (marked b).marks.users
  unfolding unique_user_revisions written
  marked-keeps u d m true =
      mark_user_revisions_applied-keeps u _ _
        (collect_revisions-Apart u.id u.revision _ [] (All-states (ApartOf u.id u.revision) os d)
          tt)
        (subst (Member u) (sym (write_engines-users proxy id (filter is_succeeded os) db)) m)
  marked-keeps u d m false =
      subst (Member u) (sym (write_engines-users proxy id (filter is_succeeded os) db)) m

  commit-keeps :
      (u : UserMark)
      → (is_status succeeded (status_of sha256 text_after os) ≡ false)
        ⊎ All (λ o. ApartOf u.id u.revision o.state) os
      → Member u db.marks.users
      → Member u (commit sha256 text_after proxy id os started completed db).marks.users
  unfolding commit written
  commit-keeps u (inl part) m =
      subst (λ b. Member u (marked b).marks.users) (sym part)
        (subst (Member u) (sym (write_engines-users proxy id (filter is_succeeded os) db)) m)
  commit-keeps u (inr d) m =
      marked-keeps u d m (is_status succeeded (status_of sha256 text_after os))

  -- At the end of an application on this host, a row of a user stays as it is unless every engine
  -- succeeded and a state names the user at that revision.
  pub user_stays_marked :
      (u : UserMark)
      → (is_status succeeded (status_of sha256 text_after os) ≡ false)
        ⊎ All (λ o. ApartOf u.id u.revision o.state) os
      → Member u db.marks.users
      → Member u (conclude sha256 text_after proxy id os started completed db).marks.users
  unfolding conclude
  user_stays_marked u d m =
      either_marks (λ t. Member u t.users)
        (is_status failed (status_of sha256 text_after os)
          || is_status rolled_back (status_of sha256 text_after os))
        _ _ m (commit-keeps u d m)

  marked-inbounds : (b : Bool) → (marked b).marks.inbounds ≡ written.marks.inbounds
  marked-inbounds true = refl
  marked-inbounds false = refl

  commit-keeps_inbound :
      (i : InboundMark)
      → All (λ o. InboundApart i.id i.revision o.state) os
      → Member i db.marks.inbounds
      → Member i (commit sha256 text_after proxy id os started completed db).marks.inbounds
  unfolding commit written
  commit-keeps_inbound i d m =
      subst (Member i)
        (sym (marked-inbounds (is_status succeeded (status_of sha256 text_after os))))
        (write_engines-keeps i proxy id (filter is_succeeded os) db
          (All-states (InboundApart i.id i.revision) os d) m)

  -- At the end of an application on this host, a row of an inbound stays as it is unless the state
  -- of an engine names the inbound at that revision.
  pub inbound_stays_marked :
      (i : InboundMark)
      → All (λ o. InboundApart i.id i.revision o.state) os
      → Member i db.marks.inbounds
      → Member i (conclude sha256 text_after proxy id os started completed db).marks.inbounds
  unfolding conclude
  inbound_stays_marked i d m =
      either_marks (λ t. Member i t.inbounds)
        (is_status failed (status_of sha256 text_after os)
          || is_status rolled_back (status_of sha256 text_after os))
        _ _ m (commit-keeps_inbound i d m)
