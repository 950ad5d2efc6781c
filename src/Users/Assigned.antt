-- ===== src/Users/Assigned.antt =====
-- The assignments of a user after an edit that names a plan.
use mathlib.Core.Path.{subst}
use over_vpn.Base.{
  ℕ, true, false, List, Option, some, Text, text_eq, Result, ok, throw, bind-ok, codes, sym, ◌≡◌,
  ◌↔◌, refl,
}
use over_vpn.CoreApply.{InboundMark}
use over_vpn.CoreApply.Marks.Kept.{Member}
use over_vpn.PlanSync.{Assignment, SyncError, mem, sync_user}
use over_vpn.PlanSync.Enabled.{ActiveFor}
use over_vpn.PlanSync.Aligned.{sync_user_iff}
use over_vpn.Users.{
  Account, Plan, Db, Failure, find_live, write, record_pending, check_unique, synced, sync_db,
  assign, inbounds_of,
}
use over_vpn.Users.Save.{UpdateUser, mapped, edited, replace_account, plan_in, assign_given, update}

mapped-ok : {A : Type 0} (r : Result Failure A) (a : A) → mapped r ≡ ok a → r ≡ ok a
mapped-ok (throw e) a h = cc
mapped-ok (ok b) a h = h

synced-ok :
    (r : Result SyncError over_vpn.PlanSync.Db) (db db' : Db)
    → synced r db ≡ ok db'
    → (after : over_vpn.PlanSync.Db) × (r ≡ ok after) × (db'.assignments ≡ after.assignments)
synced-ok (throw e) db db' h = cc
synced-ok (ok after) db db' h = (after, refl, cc)

replaced-ok :
    (old new : Account) (db mid : Db)
    → replace_account old new db ≡ ok mid
    → record db { accounts = write old.user.id (λ a. new) db.accounts } ≡ mid
replaced-ok old new db mid h =
    let (unique, checked, same) = bind-ok (check_unique new db.accounts) _ h in cc

module _ (credential : Text → InboundMark → Result SyncError Text)
    (fresh_id : Text → Text → Text) where
  assign_iff :
      (now : ℕ) (id : Text) (ids : List Text) (db db' : Db) (i : Text)
      → assign credential fresh_id now id ids db ≡ ok db'
      → ((a b : Assignment)
          → Member a db.assignments
          → Member b db.assignments
          → text_eq a.id b.id ≡ true
          → a ≡ b)
      → ((i : Text) (c : Assignment)
          → Member c db.assignments
          → text_eq (fresh_id id i) c.id ≡ false)
      → ActiveFor id i db'.assignments ↔ (mem i ids ≡ true)
  unfolding assign
  assign_iff now id ids db db' i returned keyed unused =
      let (after, done, same) = synced-ok _ db db' returned in
      subst (λ rows. ActiveFor id i rows ↔ (mem i ids ≡ true)) (sym same)
        (sync_user_iff id now (credential id) (fresh_id id) ids (sync_db db) after i done keyed
          unused)

  -- Where the ids of the assignments are different and new ids are new, after an edit that names a
  -- plan or none and returns, a plan that is named exists and may be used, and the user has an
  -- active assignment to an inbound exactly when the inbound is one of that plan, and to no
  -- inbound where none is named.
  pub update_assigns :
      (id : Text) (input : UpdateUser) (now : ℕ) (db db' : Db) (named : Option Text) (i : Text)
      → input.plan_id ≡ some named
      → ((a b : Assignment)
          → Member a db.assignments
          → Member b db.assignments
          → text_eq a.id b.id ≡ true
          → a ≡ b)
      → ((i : Text) (c : Assignment)
          → Member c db.assignments
          → text_eq (fresh_id id i) c.id ≡ false)
      → update credential fresh_id id input now db ≡ ok db'
      → (plan : Option Plan) × (plan_in (some named) db.plans ≡ ok plan)
        × (ActiveFor id i db'.assignments ↔ (mem i (inbounds_of plan db.plan_inbounds) ≡ true))
  unfolding update
  update_assigns id input now db db' named i given keyed unused returned =
      let (a, found, r1) = bind-ok (find_live id db.accounts) _ (mapped-ok _ db' returned) in
      let (plan, resolved, r2) = bind-ok (plan_in input.plan_id db.plans) _ r1 in
      let (mid, written, r3) = bind-ok (replace_account a (edited input plan now a) db) _ r2 in
      let wrote : Db =
        record_pending (codes "update") id
          (record db { accounts = write a.user.id (λ b. edited input plan now a) db.accounts }) in
      let assigned =
        subst
          (λ m.
            assign_given credential fresh_id now id input.plan_id plan
              (record_pending (codes "update") id m)
            ≡ ok db')
          (sym (replaced-ok a (edited input plan now a) db mid written)) r3 in
      (
        plan,
        subst (λ p. plan_in p db.plans ≡ ok plan) given resolved,
        assign_iff now id (inbounds_of plan db.plan_inbounds) wrote db' i
            (subst (λ p. assign_given credential fresh_id now id p plan wrote ≡ ok db') given
              assigned)
            keyed unused,
      )
