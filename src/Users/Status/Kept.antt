-- ===== src/Users/Status/Kept.antt =====
-- Each operation of the administrators keeps the rows coherent.
use over_vpn.Base.{
  Ensures, Ensures-bind, Ensures-after, ℕ, Bool, ◌&&◌, ◌==◌, List, [], ◌∷◌, map, any, length,
  Option, none, some, Text, text_eq, Result, ok, throw, Bool-cases, inl, inr, All, All-append,
}
use over_vpn.Schema.{User}
use over_vpn.CoreApply.{UserMark, InboundMark}
use over_vpn.PlanSync.{SyncError, sync_user, unique}
use over_vpn.Users.{
  Account, Plan, Db, Failure, is_live, find_live, write, check_unique, token_clashes, with_mark,
  synced, assign, resolve_plan,
}
use over_vpn.Users.Save.{
  CreateUser, UpdateUser, Draw, new_account, edited, removed, replace_account, plan_in, remove,
  with_token, rotation_error, rotate_subscription, assign_plan, create_once, create, assign_given,
  update,
}
use over_vpn.Users.Outcomes.{Ensures-mapped, Ensures-retry}
use over_vpn.Users.Bulk.{
  BulkUserAction, disable, enable, reset_traffic, rotate_sub, extend, set_plan, is_rotation,
  changes, write_changes, noted, bulk_plan, assign_bulk, bulk_each, bulk_once, bulk, chosen,
}
use over_vpn.Users.Status.{
  IsCoherent, new_account-IsCoherent, edited-IsCoherent, removed-IsCoherent, changes-IsCoherent,
  with_mark-IsCoherent,
}

-- Every row of a table is coherent.
abbrev pub AllCoherent : Db → Type 0
AllCoherent db = All IsCoherent db.accounts

write-All :
    (id : Text) (f : Account → Account) (rows : List Account)
    → ((a : Account) → IsCoherent a → IsCoherent (f a))
    → All IsCoherent rows
    → All IsCoherent (write id f rows)
write-All id f [] h all = tt
write-All id f (a ∷ rows) h (c, all) = elim (Bool-cases (text_eq a.user.id id)) [
  | inl same ↦ simp same (h a c, write-All id f rows h all)
  | inr other ↦ simp other (c, write-All id f rows h all)
]

with_mark-All :
    (marks : List UserMark) (rows : List Account)
    → All IsCoherent rows
    → All IsCoherent (map (with_mark marks) rows)
with_mark-All marks [] all = tt
with_mark-All marks (a ∷ rows) (c, all) =
    (with_mark-IsCoherent marks a c, with_mark-All marks rows all)

synced-AllCoherent :
    (r : Result SyncError over_vpn.PlanSync.Db) (db : Db)
    → AllCoherent db
    → Ensures AllCoherent (synced r db)
synced-AllCoherent (throw e) db all = tt
synced-AllCoherent (ok after) db all = with_mark-All after.marks.users db.accounts all

replace_account-AllCoherent :
    (old new : Account) (db : Db)
    → IsCoherent new
    → AllCoherent db
    → Ensures AllCoherent (replace_account old new db)
replace_account-AllCoherent old new db c all =
    Ensures-after AllCoherent (check_unique new db.accounts) _
      (λ unique. write-All old.user.id (λ a. new) db.accounts (λ a d. c) all)

find_live-IsCoherent :
    (id : Text) (rows : List Account) → All IsCoherent rows → Ensures IsCoherent (find_live id rows)
find_live-IsCoherent id [] all = tt
find_live-IsCoherent id (a ∷ rows) (c, all) = elim (Bool-cases (is_live id a)) [
  | inl here ↦ simp here c
  | inr other ↦ simp other (find_live-IsCoherent id rows all)
]

pub remove-AllCoherent :
    (id : Text) (now : ℕ) (db : Db) → AllCoherent db → Ensures AllCoherent (remove id now db)
unfolding remove
remove-AllCoherent id now db all = Ensures-mapped AllCoherent _ (
    Ensures-after AllCoherent (find_live id db.accounts) _ λ a.
      Ensures-bind AllCoherent AllCoherent (replace_account a (removed now a) db) _
        (replace_account-AllCoherent a (removed now a) db (removed-IsCoherent now a) all)
        (λ after h. h))

rotated-AllCoherent :
    (r : Result Failure Db)
    → Ensures AllCoherent r
    → Ensures AllCoherent (elim r as (λ x. Result Failure Db) [
      | ok after ↦ ok after
      | throw e ↦ throw (rotation_error e)
    ])
rotated-AllCoherent (throw e) h = tt
rotated-AllCoherent (ok after) h = h

pub rotate_subscription-AllCoherent :
    (id : Text) (draw : ℕ → Text) (db : Db)
    → AllCoherent db
    → Ensures AllCoherent (rotate_subscription id draw db)
unfolding rotate_subscription
rotate_subscription-AllCoherent id draw db all = rotated-AllCoherent _ (
    Ensures-retry AllCoherent 5 0 _ λ n.
      Ensures-bind IsCoherent AllCoherent (find_live id db.accounts) _
        (find_live-IsCoherent id db.accounts all)
        λ a c. replace_account-AllCoherent a (with_token (draw n) a) db c all)

write_changes-AllCoherent :
    (action : BulkUserAction) (read : User) (plan : Option Plan) (now : ℕ) (token : Text) (db : Db)
    → AllCoherent db
    → Ensures AllCoherent (write_changes action read plan now token db)
write_changes-AllCoherent action read plan now token db all =
    elim (Bool-cases (is_rotation action && any (token_clashes read.id token) db.accounts)) [
      | inl taken ↦ simp taken tt
      | inr free ↦ simp free (
          write-All read.id (changes action read plan now token) db.accounts
            (changes-IsCoherent action read plan now token) all)
    ]

noted-AllCoherent :
    (action : BulkUserAction) (user : Text) (db : Db)
    → AllCoherent db
    → AllCoherent (noted action user db)
noted-AllCoherent action user db all = elim (Bool-cases (is_rotation action)) [
  | inl h ↦ simp h all
  | inr h ↦ simp h all
]

module _ (credential : Text → InboundMark → Result SyncError Text)
    (fresh_id : Text → Text → Text) where
  assign-AllCoherent :
      (now : ℕ) (id : Text) (ids : List Text) (db : Db)
      → AllCoherent db
      → Ensures AllCoherent (assign credential fresh_id now id ids db)
  unfolding assign
  assign-AllCoherent now id ids db all = synced-AllCoherent _ db all

  assign_plan-AllCoherent :
      (now : ℕ) (id : Text) (plan : Option Plan) (db : Db)
      → AllCoherent db
      → Ensures AllCoherent (assign_plan credential fresh_id now id plan db)
  assign_plan-AllCoherent now id none db all = all
  assign_plan-AllCoherent now id (some plan) db all = assign-AllCoherent now id _ db all

  pub create-AllCoherent :
      (input : CreateUser) (draw : ℕ → Draw) (db : Db)
      → AllCoherent db
      → Ensures (λ (a, after). AllCoherent after) (create credential fresh_id input draw db)
  unfolding create create_once
  create-AllCoherent input draw db all =
      Ensures-mapped (λ (a, after). AllCoherent after) _
        (Ensures-retry (λ (a, after). AllCoherent after) 5 0 _
          λ n.
            Ensures-after (λ (a, after). AllCoherent after) (resolve_plan input.plan_id db.plans) _
              λ plan.
                Ensures-after (λ (a, after). AllCoherent after)
                  (check_unique (new_account input plan (draw n)) db.accounts) _
                  λ unique.
                    Ensures-bind AllCoherent (λ (a, after). AllCoherent after) _ _
                      (assign_plan-AllCoherent (draw n).now (draw n).id plan _ (
                        All-append IsCoherent db.accounts _ all
                          (new_account-IsCoherent input plan (draw n), tt)))
                      (λ after h. h))

  assign_given-AllCoherent :
      (now : ℕ) (id : Text) (named : Option (Option Text)) (plan : Option Plan) (db : Db)
      → AllCoherent db
      → Ensures AllCoherent (assign_given credential fresh_id now id named plan db)
  assign_given-AllCoherent now id none plan db all = all
  assign_given-AllCoherent now id (some named) plan db all = assign-AllCoherent now id _ db all

  pub update-AllCoherent :
      (id : Text) (input : UpdateUser) (now : ℕ) (db : Db)
      → AllCoherent db
      → Ensures AllCoherent (update credential fresh_id id input now db)
  unfolding update
  update-AllCoherent id input now db all = Ensures-mapped AllCoherent _ (
      Ensures-after AllCoherent (find_live id db.accounts) _ λ a.
        Ensures-after AllCoherent (plan_in input.plan_id db.plans) _ λ plan.
          Ensures-bind AllCoherent AllCoherent _ _
            (replace_account-AllCoherent a (edited input plan now a) db
              (edited-IsCoherent input plan now a) all)
            (λ after h. assign_given-AllCoherent now id input.plan_id plan _ h))

  module _ (order : Account → Account → Bool) where
    assign_bulk-AllCoherent :
        (action : BulkUserAction) (user : Text) (plan : Option Plan) (now : ℕ) (db : Db)
        → AllCoherent db
        → Ensures AllCoherent (assign_bulk credential fresh_id order action user plan now db)
    assign_bulk-AllCoherent disable user plan now db all = all
    assign_bulk-AllCoherent enable user plan now db all = all
    assign_bulk-AllCoherent reset_traffic user plan now db all = all
    assign_bulk-AllCoherent rotate_sub user plan now db all = all
    assign_bulk-AllCoherent (extend days) user plan now db all = all
    assign_bulk-AllCoherent (set_plan id) user plan now db all =
        assign-AllCoherent now user _ db all

    bulk_each-AllCoherent :
        (action : BulkUserAction) (plan : Option Plan) (now : ℕ) (token : Text → Text)
        (read : List Account) (db : Db)
        → AllCoherent db
        → Ensures AllCoherent (bulk_each credential fresh_id order action plan now token read db)
    unfolding bulk_each
    bulk_each-AllCoherent action plan now token [] db all = all
    bulk_each-AllCoherent action plan now token (a ∷ rest) db all =
        Ensures-bind AllCoherent AllCoherent _ _
          (Ensures-bind AllCoherent AllCoherent _ _
            (write_changes-AllCoherent action a.user plan now (token a.user.id) db all)
            λ written w.
              Ensures-bind AllCoherent AllCoherent _ _
                (assign_bulk-AllCoherent action a.user.id plan now written w)
                (λ assigned h. noted-AllCoherent action a.user.id assigned h))
          (λ next h. bulk_each-AllCoherent action plan now token rest next h)

    pub bulk-AllCoherent :
        (action : BulkUserAction) (ids : List Text) (now : ℕ → ℕ) (draw : ℕ → Text → Text) (db : Db)
        → AllCoherent db
        → Ensures
            (λ (n, after). AllCoherent after)
            (bulk credential fresh_id order action ids now draw db)
    unfolding bulk bulk_once
    bulk-AllCoherent action ids now draw db all =
        Ensures-mapped (λ (n, after). AllCoherent after) _
          (Ensures-retry (λ (n, after). AllCoherent after) 5 0 _
            λ n. elim (Bool-cases (length (chosen order (unique ids) db) == length (unique ids))) [
              | inl found ↦ simp found (
                  Ensures-after (λ (n, after). AllCoherent after) (bulk_plan action db.plans) _
                    λ plan.
                      Ensures-bind AllCoherent (λ (n, after). AllCoherent after) _ _
                        (bulk_each-AllCoherent action plan (now n) (draw n) _ db all) (λ done h. h))
              | inr missing ↦ simp missing tt
            ])
