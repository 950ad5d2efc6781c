-- ===== src/Users/Waiting/Done.antt =====
-- The users of a bulk action wait for the cores when it is done.
use over_vpn.Base.{
  ℕ, suc, ◌<◌, ◌==◌, ==_iff, Bool, true, false, ◌&&◌, List, [], ◌∷◌, any, length, insert_sorted,
  sort, Option, Text, text_eq, Result, ok, Ensures, Ensures-bind, Ensures-after, Ensures-ok, ◌≡◌,
  ◌⊎◌, refl, ap, sym, arith, Bool-cases, inl, inr, All,
}
use mathlib.Core.Path.{subst}
use over_vpn.CoreApply.{InboundMark}
use over_vpn.CoreApply.Marks.Kept.{Member}
use over_vpn.PlanSync.{SyncError, unique}
use over_vpn.PlanSync.Rows.{filter-Member}
use over_vpn.PlanSync.Users.{sync_user-users}
use over_vpn.PlanSync.Aligned.{mem-unique}
use over_vpn.Users.{Account, Plan, Db, write, sync_db, assign, token_clashes}
use over_vpn.Users.Outcomes.{Ensures-mapped, Ensures-retry}
use over_vpn.Users.Bulk.{
  BulkUserAction, disable, enable, reset_traffic, rotate_sub, extend, set_plan, is_rotation,
  changes, write_changes, assign_bulk, noted, bulk_one, bulk_each, bulk_plan, chosen, is_chosen,
  bulk_once, bulk,
}
use over_vpn.Users.Waiting.{
  MarkAt, RowAt, DbAt, bump_user-MarkAt, marks-MarkAt, synced-DbAt, changes-raise, changes-RowAt,
  write-RowAt, write-raise,
}

insert_sorted-Member :
    {A : Type 0} (after : A → A → Bool) (x y : A) (ys : List A)
    → (x ≡ y) ⊎ Member x ys
    → Member x (insert_sorted after y ys)
insert_sorted-Member after x y [] m = m
insert_sorted-Member after x y (z ∷ zs) m = elim (Bool-cases (after y z)) [
  | inl later ↦ simp later (elim m [
    | inl same ↦ inr (insert_sorted-Member after x y zs (inl same))
    | inr (inl here) ↦ inl here
    | inr (inr there) ↦ inr (insert_sorted-Member after x y zs (inr there))
  ])
  | inr first ↦ simp first m
]

sort-Member :
    {A : Type 0} (after : A → A → Bool) (x : A) (ys : List A)
    → Member x ys
    → Member x (sort after ys)
sort-Member after x [] m = elim m [ ]
sort-Member after x (y ∷ ys) (inl same) = insert_sorted-Member after x y (sort after ys) (inl same)
sort-Member after x (y ∷ ys) (inr m) =
    insert_sorted-Member after x y (sort after ys) (inr (sort-Member after x ys m))

-- Each row of a user, at the end of an action that counted them.
abbrev pub HasRisen : Account → Account → Type 0
HasRisen u b =
    text_eq b.user.id u.user.id ≡ true
    → (b.user.needs_apply ≡ true) × (u.user.revision < b.user.revision)

abbrev IsDone : List Text → Account → ℕ × Db → Type 0
IsDone ids u (n, after) = (n ≡ length ids) × All (HasRisen u) after.accounts

risen :
    (u : Account) (rows : List Account)
    → All (RowAt u.user.id true (suc u.user.revision)) rows
    → All (HasRisen u) rows
risen u [] all = tt
risen u (b ∷ rows) (h, all) =
    (λ same. let (waits, above) = h same in (waits refl, omega arith), risen u rows all)

start :
    (u : Account) (rows : List Account)
    → ((b : Account) → Member b rows → text_eq b.user.id u.user.id ≡ true → b ≡ u)
    → All (RowAt u.user.id false u.user.revision) rows
start u [] keyed = tt
start u (b ∷ rows) keyed = (
  λ same. ((λ e. cc), omega (arith, ap (λ x. x.user.revision) (keyed b (inl refl) same))),
  start u rows (λ c m. keyed c (inr m)),
)

module _ (credential : Text → InboundMark → Result SyncError Text) (fresh_id : Text → Text → Text)
    (order : Account → Account → Bool) (action : BulkUserAction)
    (other : is_rotation action ≡ false) where
  assign-DbAt :
      (u : Text) (w : Bool) (n now : ℕ) (id : Text) (ids : List Text) (db : Db)
      → DbAt u w n db
      → Ensures (DbAt u w n) (assign credential fresh_id now id ids db)
  unfolding assign
  assign-DbAt u w n now id ids db all =
      synced-DbAt u w n _ db
        (sync_user-users id (All (MarkAt u w n)) (bump_user-MarkAt u w n id) now (credential id)
          (fresh_id id) ids (sync_db db) (marks-MarkAt u w n db.accounts all))
        all

  assign_bulk-DbAt :
      (u : Text) (w : Bool) (n : ℕ) (choice : BulkUserAction) (id : Text) (plan : Option Plan)
      (now : ℕ) (db : Db)
      → DbAt u w n db
      → Ensures (DbAt u w n) (assign_bulk credential fresh_id order choice id plan now db)
  assign_bulk-DbAt u w n disable id plan now db all = all
  assign_bulk-DbAt u w n enable id plan now db all = all
  assign_bulk-DbAt u w n reset_traffic id plan now db all = all
  assign_bulk-DbAt u w n rotate_sub id plan now db all = all
  assign_bulk-DbAt u w n (extend days) id plan now db all = all
  assign_bulk-DbAt u w n (set_plan p) id plan now db all = assign-DbAt u w n now id _ db all

  noted-DbAt :
      (u : Text) (w : Bool) (n : ℕ) (id : Text) (db : Db)
      → DbAt u w n db
      → DbAt u w n (noted action id db)
  noted-DbAt u w n id db all = rw other all

  write_changes-DbAt :
      (u : Text) (w : Bool) (n : ℕ) (a : Account) (plan : Option Plan) (now : ℕ) (token : Text)
      (db : Db)
      → DbAt u w n (record db {
        accounts = write a.user.id (changes action a.user plan now token) db.accounts;
      })
      → Ensures (DbAt u w n) (write_changes action a.user plan now token db)
  write_changes-DbAt u w n a plan now token db all =
      elim (Bool-cases (is_rotation action && any (token_clashes a.user.id token) db.accounts)) [
        | inl taken ↦ simp taken tt
        | inr free ↦ simp free all
      ]

  -- What follows the write of a row leaves the marks at least where they are.
  rest-DbAt :
      (u : Text) (w : Bool) (n : ℕ) (a : Account) (plan : Option Plan) (now : ℕ)
      (token : Text → Text) (db : Db)
      → DbAt u w n (record db {
        accounts = write a.user.id (changes action a.user plan now (token a.user.id)) db.accounts;
      })
      → Ensures (DbAt u w n) (bulk_one credential fresh_id order action plan now token a.user db)
  rest-DbAt u w n a plan now token db all =
      Ensures-bind (DbAt u w n) (DbAt u w n) _ _
        (write_changes-DbAt u w n a plan now (token a.user.id) db all)
        (λ written k.
          Ensures-bind (DbAt u w n) (DbAt u w n) _ _
            (assign_bulk-DbAt u w n action a.user.id plan now written k)
            (λ assigned h. noted-DbAt u w n a.user.id assigned h))

  bulk_one-DbAt :
      (u : Text) (w : Bool) (n : ℕ) (a : Account) (plan : Option Plan) (now : ℕ)
      (token : Text → Text) (db : Db)
      → DbAt u w n db
      → Ensures (DbAt u w n) (bulk_one credential fresh_id order action plan now token a.user db)
  bulk_one-DbAt u w n a plan now token db all = rest-DbAt u w n a plan now token db (
      write-RowAt action other a.user.id u w n _ db.accounts
        (changes-RowAt action other u w n a.user plan now (token a.user.id)) all)

  bulk_one-raise :
      (u : Text) (w : Bool) (n : ℕ) (a : Account) (plan : Option Plan) (now : ℕ)
      (token : Text → Text) (db : Db)
      → a.user.id ≡ u
      → DbAt u w n db
      → Ensures
          (DbAt u true (suc n))
          (bulk_one credential fresh_id order action plan now token a.user db)
  bulk_one-raise u w n a plan now token db same all = rest-DbAt u true (suc n) a plan now token db (
      subst
        (λ id.
          All (RowAt u true (suc n))
            (write id (changes action a.user plan now (token a.user.id)) db.accounts))
        (sym same)
        (write-raise action other u w n _ db.accounts
          (changes-raise action other u w n a.user plan now (token a.user.id)) all))

  bulk_each-DbAt :
      (u : Text) (w : Bool) (n : ℕ) (plan : Option Plan) (now : ℕ) (token : Text → Text)
      (read : List Account) (db : Db)
      → DbAt u w n db
      → Ensures (DbAt u w n) (bulk_each credential fresh_id order action plan now token read db)
  unfolding bulk_each
  bulk_each-DbAt u w n plan now token [] db all = all
  bulk_each-DbAt u w n plan now token (a ∷ rest) db all =
      Ensures-bind (DbAt u w n) (DbAt u w n) _ _ (bulk_one-DbAt u w n a plan now token db all)
        (λ next h. bulk_each-DbAt u w n plan now token rest next h)

  -- The rows of a user who is read rise.
  bulk_each-raise :
      (u : Account) (w : Bool) (n : ℕ) (plan : Option Plan) (now : ℕ) (token : Text → Text)
      (read : List Account) (db : Db)
      → Member u read
      → DbAt u.user.id w n db
      → Ensures
          (DbAt u.user.id true (suc n))
          (bulk_each credential fresh_id order action plan now token read db)
  unfolding bulk_each
  bulk_each-raise u w n plan now token [] db m all = elim m [ ]
  bulk_each-raise u w n plan now token (a ∷ rest) db (inl here) all =
      Ensures-bind (DbAt u.user.id true (suc n)) (DbAt u.user.id true (suc n)) _ _
        (bulk_one-raise u.user.id w n a plan now token db (ap (λ x. x.user.id) (sym here)) all)
        (λ next h. bulk_each-DbAt u.user.id true (suc n) plan now token rest next h)
  bulk_each-raise u w n plan now token (a ∷ rest) db (inr there) all =
      Ensures-bind (DbAt u.user.id w n) (DbAt u.user.id true (suc n)) _ _
        (bulk_one-DbAt u.user.id w n a plan now token db all)
        (λ next h. bulk_each-raise u w n plan now token rest next there h)

  bulk_once-IsDone :
      (ids : List Text) (u : Account) (now : ℕ) (token : Text → Text) (db : Db)
      → Member u db.accounts
      → is_chosen ids u ≡ true
      → ((b : Account) → Member b db.accounts → text_eq b.user.id u.user.id ≡ true → b ≡ u)
      → Ensures (IsDone ids u) (bulk_once credential fresh_id order action ids now token db)
  unfolding bulk_once
  bulk_once-IsDone ids u now token db there picked keyed =
      elim (Bool-cases (length (chosen order ids db) == length ids)) [
        | inl found ↦ simp found (
            Ensures-after (IsDone ids u) (bulk_plan action db.plans) _ λ plan.
              Ensures-bind (DbAt u.user.id true (suc u.user.revision)) (IsDone ids u) _ _
                (bulk_each-raise u false u.user.revision plan now token (chosen order ids db) db
                  (sort-Member order u _ (filter-Member (is_chosen ids) u db.accounts picked there))
                  (start u db.accounts keyed))
                (λ done h. ((==_iff _ _).0 found, risen u done.accounts h)))
        | inr missing ↦ simp missing tt
      ]

  -- A bulk action other than a rotation that returns has counted the different ids of its request,
  -- and each row of a user who is among them, is not deleted and has an id of its own waits for
  -- the cores at a higher revision.
  pub bulk_waits :
      (ids : List Text) (u : Account) (now : ℕ → ℕ) (draw : ℕ → Text → Text) (db db' : Db) (n : ℕ)
      → Member u db.accounts
      → is_chosen ids u ≡ true
      → ((b : Account) → Member b db.accounts → text_eq b.user.id u.user.id ≡ true → b ≡ u)
      → bulk credential fresh_id order action ids now draw db ≡ ok (n, db')
      → (n ≡ length (unique ids)) × All (HasRisen u) db'.accounts
  unfolding bulk
  bulk_waits ids u now draw db db' n there picked keyed returned =
      Ensures-ok (IsDone (unique ids) u) _
        (Ensures-mapped (IsDone (unique ids) u) _ (
          Ensures-retry (IsDone (unique ids) u) 5 0 _ λ k.
            bulk_once-IsDone (unique ids) u (now k) (draw k) db there
              (rw (mem-unique u.user.id ids) picked) keyed))
        returned
