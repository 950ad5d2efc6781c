-- ===== src/Users/Waiting.antt =====
-- The marks of the users while a bulk action writes their rows.
pub mod Done
use over_vpn.Base.{
  ℕ, suc, ◌≤◌, ◌<◌, ◌==◌, ==_iff, Bool, true, false, not, ◌&&◌, List, [], ◌∷◌, map, filter, any,
  length, none, some, insert_sorted, sort, Option, Text, text_eq, text_eq_iff, text_eq_refl, Result,
  ok, throw, ◌>>=◌, Ensures, Ensures-bind, Ensures-after, Ensures-ok, ◌≡◌, refl, ap, ◌∙◌, sym,
  arith, Bool-cases, inl, inr, All,
}
use mathlib.Core.Path.{subst}
use over_vpn.Schema.{User}
use over_vpn.CoreApply.{UserMark, InboundMark}
use over_vpn.CoreApply.Marks.Kept.{Member}
use over_vpn.PlanSync.{SyncError, bump_user, sync_user, unique}
use over_vpn.PlanSync.Rows.{filter-Member}
use over_vpn.PlanSync.Users.{sync_user-users}
use over_vpn.PlanSync.Aligned.{mem-unique}
use over_vpn.Users.{
  Account, Plan, Db, Failure, write, mark_of, with_mark, sync_db, synced, assign, marked,
  token_clashes,
}
use over_vpn.Users.Outcomes.{Ensures-mapped, Ensures-retry}
use over_vpn.Users.Bulk.{
  BulkUserAction, disable, enable, reset_traffic, rotate_sub, extend, set_plan, is_rotation,
  bulk_update, changes, write_changes, assign_bulk, noted, bulk_one, bulk_each, bulk_plan, chosen,
  is_chosen, bulk_once, bulk,
}

-- A mark at a revision or above, which waits where `w` holds.
abbrev pub IsAt : Bool → ℕ → Bool → ℕ → Type 0
IsAt w n waits revision = (w ≡ true → waits ≡ true) × (n ≤ revision)

module _ (u : Text) (w : Bool) (n : ℕ) where
  abbrev pub MarkAt : UserMark → Type 0
  MarkAt m = text_eq m.id u ≡ true → IsAt w n m.needs_apply m.revision

  abbrev pub RowAt : Account → Type 0
  RowAt a = text_eq a.user.id u ≡ true → IsAt w n a.user.needs_apply a.user.revision

  pub bump_user-MarkAt :
      (id : Text) (ms : List UserMark) → All MarkAt ms → All MarkAt (bump_user id ms)
  unfolding bump_user
  bump_user-MarkAt id [] all = tt
  bump_user-MarkAt id (m ∷ ms) (h, all) = elim (Bool-cases (text_eq m.id id)) [
    | inl here ↦ simp here (
      λ same. let (waits, above) = h same in ((λ e. refl), omega arith),
      bump_user-MarkAt id ms all,
    )
    | inr other ↦ simp other (h, bump_user-MarkAt id ms all)
  ]

  pub marks-MarkAt : (rows : List Account) → All RowAt rows → All MarkAt (map mark_of rows)
  marks-MarkAt [] all = tt
  marks-MarkAt (a ∷ rows) (h, all) = (h, marks-MarkAt rows all)

  with_mark-RowAt :
      (ms : List UserMark) (a : Account) → All MarkAt ms → RowAt a → RowAt (with_mark ms a)
  with_mark-RowAt [] a all h = h
  with_mark-RowAt (m ∷ ms) a (k, all) h = elim (Bool-cases (text_eq m.id a.user.id)) [
    | inl here ↦ simp here (λ same.
        k (subst (λ x. text_eq x u ≡ true) (sym ((text_eq_iff m.id a.user.id).0 here)) same))
    | inr other ↦ simp other (with_mark-RowAt ms a all h)
  ]

  with_marks-RowAt :
      (ms : List UserMark) (rows : List Account)
      → All MarkAt ms
      → All RowAt rows
      → All RowAt (map (with_mark ms) rows)
  with_marks-RowAt ms [] marks all = tt
  with_marks-RowAt ms (a ∷ rows) marks (h, all) =
      (with_mark-RowAt ms a marks h, with_marks-RowAt ms rows marks all)

  abbrev pub DbAt : Db → Type 0
  DbAt db = All RowAt db.accounts

  pub synced-DbAt :
      (r : Result SyncError over_vpn.PlanSync.Db) (db : Db)
      → Ensures (λ after. All MarkAt after.marks.users) r
      → DbAt db
      → Ensures DbAt (synced r db)
  synced-DbAt (throw e) db h all = tt
  synced-DbAt (ok after) db h all = with_marks-RowAt after.marks.users db.accounts h all

bulk_update-keeps :
    (action : BulkUserAction) (read : User) (plan : Option Plan) (now : ℕ) (token : Text)
    (a : Account)
    → let b = bulk_update action read plan now token a in
      (b.user.id ≡ a.user.id) × (b.user.revision ≡ a.user.revision)
unfolding bulk_update
bulk_update-keeps disable read plan now token a = (refl, refl)
bulk_update-keeps enable read plan now token a = (refl, refl)
bulk_update-keeps reset_traffic read plan now token a = (refl, refl)
bulk_update-keeps (extend days) read plan now token a = (refl, refl)
bulk_update-keeps (set_plan id) read none now token a = (refl, refl)
bulk_update-keeps (set_plan id) read (some plan) now token a = (refl, refl)
bulk_update-keeps rotate_sub read plan now token a = (refl, refl)

module _ (action : BulkUserAction) (other : is_rotation action ≡ false) where
  -- A change raises the revision of its row, and the row waits.
  pub changes-raise :
      (u : Text) (w : Bool) (n : ℕ) (read : User) (plan : Option Plan) (now : ℕ) (token : Text)
      (a : Account)
      → RowAt u w n a
      → RowAt u true (suc n) (changes action read plan now token a)
  changes-raise u w n read plan now token a h =
      let (id, revision) = bulk_update-keeps action read plan now token a in
      simp other λ same.
        let (waits, above) = h (ap (λ x. text_eq x u) (sym id) ∙ same) in
        ((λ e. refl), omega (arith, revision))

  pub changes-RowAt :
      (u : Text) (w : Bool) (n : ℕ) (read : User) (plan : Option Plan) (now : ℕ) (token : Text)
      (a : Account)
      → RowAt u w n a
      → RowAt u w n (changes action read plan now token a)
  changes-RowAt u w n read plan now token a h same =
      let (waits, above) = changes-raise u w n read plan now token a h same in
      ((λ e. waits refl), omega arith)

  pub write-RowAt :
      (id u : Text) (w : Bool) (n : ℕ) (f : Account → Account) (rows : List Account)
      → ((a : Account) → RowAt u w n a → RowAt u w n (f a))
      → All (RowAt u w n) rows
      → All (RowAt u w n) (write id f rows)
  write-RowAt id u w n f [] h all = tt
  write-RowAt id u w n f (a ∷ rows) h (k, all) = elim (Bool-cases (text_eq a.user.id id)) [
    | inl here ↦ simp here (h a k, write-RowAt id u w n f rows h all)
    | inr away ↦ simp away (k, write-RowAt id u w n f rows h all)
  ]

  pub write-raise :
      (u : Text) (w : Bool) (n : ℕ) (f : Account → Account) (rows : List Account)
      → ((a : Account) → RowAt u w n a → RowAt u true (suc n) (f a))
      → All (RowAt u w n) rows
      → All (RowAt u true (suc n)) (write u f rows)
  write-raise u w n f [] h all = tt
  write-raise u w n f (a ∷ rows) h (k, all) = elim (Bool-cases (text_eq a.user.id u)) [
    | inl here ↦ simp here (h a k, write-raise u w n f rows h all)
    | inr away ↦ simp away ((λ same. cc), write-raise u w n f rows h all)
  ]
