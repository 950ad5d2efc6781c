-- ===== src/Users/Operations.antt =====
-- All operations of the administrators on users, in any order, and what holds after them.
use over_vpn.Base.{ℕ, Bool, List, [], ◌∷◌, Text, Result, ok, throw, Ensures, All}
use over_vpn.CoreApply.{InboundMark}
use over_vpn.PlanSync.{SyncError}
use over_vpn.Users.{Account, Db, Failure}
use over_vpn.Users.Save.{CreateUser, UpdateUser, Draw, remove, rotate_subscription, create, update}
use over_vpn.Users.Bulk.{BulkUserAction, bulk}
use over_vpn.Users.Status.{IsCoherent}
use over_vpn.Users.Status.Kept.{
  AllCoherent, create-AllCoherent, update-AllCoherent, remove-AllCoherent,
  rotate_subscription-AllCoherent, bulk-AllCoherent,
}

pub data Operation : Type 0 where
  create_user : CreateUser → (ℕ → Draw) → Operation
  update_user : Text → UpdateUser → ℕ → Operation
  remove_user : Text → ℕ → Operation
  rotate : Text → (ℕ → Text) → Operation
  act : BulkUserAction → List Text → (ℕ → ℕ) → (ℕ → Text → Text) → Operation

-- A failed operation changes nothing.
abbrev pub settle : {A : Type 0} → (A → Db) → Db → Result Failure A → Db
settle f db (throw e) = db
settle f db (ok a) = f a

settle-AllCoherent :
    {A : Type 0} (f : A → Db) (db : Db) (r : Result Failure A)
    → AllCoherent db
    → Ensures (λ a. AllCoherent (f a)) r
    → AllCoherent (settle f db r)
settle-AllCoherent f db (throw e) all h = all
settle-AllCoherent f db (ok a) all h = h

module _ (credential : Text → InboundMark → Result SyncError Text) (fresh_id : Text → Text → Text)
    (order : Account → Account → Bool) where
  abbrev pub perform : Operation → Db → Db
  perform (create_user input draw) db =
      settle (λ (a, after). after) db (create credential fresh_id input draw db)
  perform (update_user id input now) db =
      settle (λ after. after) db (update credential fresh_id id input now db)
  perform (remove_user id now) db = settle (λ after. after) db (remove id now db)
  perform (rotate id draw) db = settle (λ after. after) db (rotate_subscription id draw db)
  perform (act action ids now draw) db =
      settle (λ (n, after). after) db (bulk credential fresh_id order action ids now draw db)

  abbrev pub perform_all : List Operation → Db → Db
  perform_all [] db = db
  perform_all (o ∷ os) db = perform_all os (perform o db)

  perform-AllCoherent : (o : Operation) (db : Db) → AllCoherent db → AllCoherent (perform o db)
  perform-AllCoherent (create_user input draw) db all =
      settle-AllCoherent {A = Account × Db} (λ (a, after). after) db
        (create credential fresh_id input draw db) all
        (create-AllCoherent credential fresh_id input draw db all)
  perform-AllCoherent (update_user id input now) db all =
      settle-AllCoherent {A = Db} (λ after. after) db (update credential fresh_id id input now db)
        all (update-AllCoherent credential fresh_id id input now db all)
  perform-AllCoherent (remove_user id now) db all =
      settle-AllCoherent {A = Db} (λ after. after) db (remove id now db) all
        (remove-AllCoherent id now db all)
  perform-AllCoherent (rotate id draw) db all =
      settle-AllCoherent {A = Db} (λ after. after) db (rotate_subscription id draw db) all
        (rotate_subscription-AllCoherent id draw db all)
  perform-AllCoherent (act action ids now draw) db all =
      settle-AllCoherent {A = ℕ × Db} (λ (n, after). after) db
        (bulk credential fresh_id order action ids now draw db) all
        (bulk-AllCoherent credential fresh_id order action ids now draw db all)

  -- Where each row of a table has a reason and an instant of disabling that fit its status, and
  -- each row that is not deleted has no hold unless it is LIMITED for another reason than the
  -- quota, the same is true after any operations of the administrators: creations, edits,
  -- removals, rotations and bulk actions, whether they return or throw.
  pub perform_all-IsCoherent :
      (operations : List Operation) (db : Db)
      → All IsCoherent db.accounts
      → All IsCoherent (perform_all operations db).accounts
  perform_all-IsCoherent [] db all = all
  perform_all-IsCoherent (o ∷ os) db all =
      perform_all-IsCoherent os (perform o db) (perform-AllCoherent o db all)
