-- ===== src/PlanSync/Aligned.antt =====
-- The assignments of a user after the synchronisation.
use mathlib.Core.Path.{subst}
use over_vpn.Base.{
  ℕ, Bool, true, false, not, ◌&&◌, ◌||◌, List, [], ◌∷◌, ◌++◌, Text, text_eq, text_eq_iff,
  text_eq_refl, ◌≡◌, ◌↔◌, refl, arith, ap, ◌∙◌, sym, Bool-cases, inl, inr, Result, ok, bind-ok,
}
use over_vpn.CoreApply.{InboundMark}
use over_vpn.CoreApply.Marks.Kept.{Member}
use over_vpn.PlanSync.{
  Assignment, Db, SyncError, is_active, mem, add_new, unique, unique_from, is_superfluous,
  disable_rest, rows_of, sync_user,
}
use over_vpn.PlanSync.Rows.{filter-Member, Member-of_filter}
use over_vpn.PlanSync.Disabled.{
  disable_rest-Pending, disable_rest-keeps, disable_rest-after, disable_rest-before,
}
use over_vpn.PlanSync.Enabled.{ActiveFor}
use over_vpn.PlanSync.Reached.{AllWanted, Reached, enable_wanted-Reached}

-- `unique` has the ids that the list has.
mem-append : (x y : Text) (xs : List Text) → mem x (xs ++ y ∷ []) ≡ mem x xs || text_eq y x
mem-append x y [] = ground arith
mem-append x y (z ∷ zs) = ground (arith, mem-append x y zs)

mem-add_new : (x y : Text) (xs : List Text) → mem x (add_new y xs) ≡ text_eq y x || mem x xs
mem-add_new x y xs = elim (Bool-cases (mem y xs)) [
  | inl there ↦ elim (Bool-cases (text_eq y x)) [
    | inl same ↦
        let e : mem x xs ≡ true = subst (λ z. mem z xs ≡ true) ((text_eq_iff y x).0 same) there in
        ground (arith, there, same, e)
    | inr other ↦ ground (arith, there, other)
  ]
  | inr absent ↦ ground (arith, absent, mem-append x y xs)
]

mem-unique_from :
    (x : Text) (xs seen : List Text) → mem x (unique_from xs seen) ≡ mem x xs || mem x seen
mem-unique_from x [] seen = refl
mem-unique_from x (y ∷ ys) seen =
    ground (arith, mem-unique_from x ys (add_new y seen), mem-add_new x y seen)

pub mem-unique : (x : Text) (xs : List Text) → mem x (unique xs) ≡ mem x xs
unfolding unique
mem-unique x xs = ground (arith, mem-unique_from x xs [])

clash : (x y : Bool) → x ≡ true → not x && y ≡ true → ⊥
clash true y e f = cc
clash false y e f = cc

module _ (user : Text) (now : ℕ) (credential : InboundMark → Result SyncError Text)
    (fresh_id : Text → Text) where
  abbrev rows : Db → List Assignment
  rows db = rows_of user now credential fresh_id db.assignments

  module _ (db : Db) (wanted : List Text)
      (keyed : (a b : Assignment)
        → Member a db.assignments
        → Member b db.assignments
        → text_eq a.id b.id ≡ true
        → a ≡ b)
      (unused : (i : Text) (c : Assignment)
        → Member c db.assignments
        → text_eq (fresh_id i) c.id ≡ false) where
    of_db : (c : Assignment) → Member c (rows db) → Member c db.assignments
    of_db c m = (Member-of_filter (λ a. text_eq a.user_id user) c db.assignments m).0

    own : (c : Assignment) → Member c (rows db) → c.user_id ≡ user
    own c m =
        (text_eq_iff c.user_id user).0
          ((Member-of_filter (λ a. text_eq a.user_id user) c db.assignments m).1)

    unused_here :
        (i : Text) (c : Assignment) → Member c (rows db) → text_eq (fresh_id i) c.id ≡ false
    unused_here i c m = unused i c (of_db c m)

    -- A wanted row has the id of no superfluous one.
    apart :
        (c : Assignment)
        → Member c (rows db)
        → mem c.inbound_id wanted ≡ true
        → (a : Assignment) → Member a (rows db)
        → is_superfluous user now wanted a ≡ true
        → text_eq c.id a.id ≡ false
    apart c m w a n h = elim (Bool-cases (text_eq c.id a.id)) [
      | inl same ↦ absurd (
          clash (mem c.inbound_id wanted) (is_active c) w
            (ap (is_superfluous user now wanted) (keyed c a (of_db c m) (of_db a n) same) ∙ h))
      | inr other ↦ other
    ]

    only_wanted :
        (r : Assignment) (after : Db)
        → disable_rest user now wanted (rows db) db ≡ ok after
        → Member r after.assignments
        → text_eq r.user_id user ≡ true
        → is_active r ≡ true
        → mem r.inbound_id wanted ≡ true
    only_wanted r after e m u a = elim (Bool-cases (mem r.inbound_id wanted)) [
      | inl there ↦ there
      | inr absent ↦ absurd (
          disable_rest-Pending user now wanted (rows db) db after e
            (λ b n v h. filter-Member (λ x. text_eq x.user_id user) b db.assignments v n) r m u
            (rw (absent, a) refl))
    ]

    disabled-Reached :
        (after : Db)
        → disable_rest user now wanted (rows db) db ≡ ok after
        → Reached user now credential fresh_id (rows db) wanted own unused_here after.assignments
    disabled-Reached after e = record {
      good = record {
        present = λ c m.
            let (r, n, same) =
              disable_rest-after user now wanted c (rows db) db after e
                (c, of_db c m, (refl, refl, refl)) in
            (r, n, same.0, same.1, same.2);
        agree = λ r m c n h.
            let (b, k, same) = disable_rest-before user now wanted r (rows db) db after e m in
            same.2
            ∙ ap (λ x. x.inbound_id)
                (keyed b c k (of_db c n) (ap (λ x. text_eq x c.id) (sym same.0) ∙ h));
        only = λ r m u a. only_wanted r after e m u a;
      };
      held = λ c m a w. (
        c,
        disable_rest-keeps user now wanted c (rows db) db after e (apart c m w) (of_db c m),
        own c m,
        refl,
        a,
      );
    }

    all_wanted :
        (is : List Text)
        → ((i : Text) → mem i is ≡ true → mem i wanted ≡ true)
        → AllWanted user now credential fresh_id (rows db) wanted own unused_here is
    all_wanted [] h = tt
    all_wanted (i ∷ is) h =
        (h i (ground (arith, text_eq_refl i)), all_wanted is (λ j m. h j (ground (arith, m))))

  -- Where the ids of the assignments are different and new ids are new, after a synchronisation
  -- that returns a user has an active assignment to an inbound exactly when the inbound is one of
  -- those that were given.
  pub sync_user_iff :
      (ids : List Text) (db db' : Db) (i : Text)
      → sync_user user now credential fresh_id ids db ≡ ok db'
      → ((a b : Assignment)
          → Member a db.assignments
          → Member b db.assignments
          → text_eq a.id b.id ≡ true
          → a ≡ b)
      → ((i : Text) (c : Assignment) → Member c db.assignments → text_eq (fresh_id i) c.id ≡ false)
      → ActiveFor user i db'.assignments ↔ (mem i ids ≡ true)
  unfolding sync_user
  sync_user_iff ids db db' i e keyed unused =
      let (after, f, rest) = bind-ok (disable_rest user now (unique ids) (rows db) db) _ e in
      let (g, all_active) =
        enable_wanted-Reached user now credential fresh_id (rows db) (unique ids)
          (own db (unique ids) keyed unused) (unused_here db (unique ids) keyed unused) (unique ids)
          after db' rest (all_wanted db (unique ids) keyed unused (unique ids) (λ j m. m))
          (disabled-Reached db (unique ids) keyed unused after f) in
      (
        λ (r, m, u, s, a).
            sym (mem-unique i ids)
            ∙ ap (λ x. mem x (unique ids)) (sym s)
            ∙ g.good.only r m ((text_eq_iff r.user_id user).1 u) a,
        λ h. all_active i (inr (mem-unique i ids ∙ h)),
      )
