-- ===== src/PlanSync/Enabled.antt =====
-- The loop that enables the assignments of the plan.
use over_vpn.Base.{
  ℕ, Bool, true, false, List, [], ◌∷◌, ◌++◌, Option, none, some, Text, text_eq, text_eq_iff,
  if◌then◌else◌, ◌≡◌, ◌⊎◌, refl, ap, sym, Bool-cases, inl, inr, Result, ok, bind-ok,
}
use over_vpn.CoreApply.{InboundMark}
use over_vpn.CoreApply.Marks.Kept.{Member}
use over_vpn.PlanSync.{
  Assignment, Db, SyncError, is_active, row_for, inbound_row, enabled_row, new_row, with_row,
  enable_in, is_current, enable_one,
}
use over_vpn.PlanSync.Rows.{update_assignment-other, update_assignment-hit}
use over_vpn.PlanSync.Disabled.{mark_assignment_changed-assignments, returned}

pub Member-left : (r : Assignment) (xs ys : List Assignment) → Member r xs → Member r (xs ++ ys)
Member-left r [] ys m = elim m [ ]
Member-left r (x ∷ xs) ys (inl e) = inl e
Member-left r (x ∷ xs) ys (inr m) = inr (Member-left r xs ys m)

pub Member-last : (r : Assignment) (xs : List Assignment) → Member r (xs ++ r ∷ [])
Member-last r [] = inl refl
Member-last r (x ∷ xs) = inr (Member-last r xs)

pub Member-snoc :
    (r y : Assignment) (xs : List Assignment) → Member r (xs ++ y ∷ []) → Member r xs ⊎ (r ≡ y)
Member-snoc r y [] (inl e) = inr e
Member-snoc r y [] (inr m) = elim m [ ]
Member-snoc r y (x ∷ xs) (inl e) = inl (inl e)
Member-snoc r y (x ∷ xs) (inr m) = elim (Member-snoc r y xs m) [
  | inl n ↦ inl (inr n)
  | inr e ↦ inr e
]

-- An active assignment of a user to an inbound.
abbrev pub ActiveFor : Text → Text → List Assignment → Type 0
ActiveFor user i rows =
    (r : Assignment) × Member r rows
    × (r.user_id ≡ user)
    × (r.inbound_id ≡ i)
    × (is_active r ≡ true)

unfoldable pub Found : Text → List Assignment → Option Assignment → Type 0
Found i rows none = Unit
Found i rows (some c) = Member c rows × (c.inbound_id ≡ i)

Found-here :
    (i : Text) (a : Assignment) (rows : List Assignment) (b : Bool)
    → text_eq a.inbound_id i ≡ b
    → Found i (a ∷ rows) (if b then some a else none)
unfolding Found
Found-here i a rows true e = (inl refl, (text_eq_iff a.inbound_id i).0 e)
Found-here i a rows false e = tt

Found-or :
    (i : Text) (a : Assignment) (rows : List Assignment) (o : Option Assignment)
    → Found i rows o
    → Found i
        (a ∷ rows)
        (elim o [ some b ↦ some b | none ↦ if text_eq a.inbound_id i then some a else none ])
unfolding Found
Found-or i a rows (some c) (m, e) = (inr m, e)
Found-or i a rows none u = Found-here i a rows (text_eq a.inbound_id i) refl

pub row_for-Found : (i : Text) (rows : List Assignment) → Found i rows (row_for i rows)
unfolding Found
row_for-Found i [] = tt
row_for-Found i (a ∷ rows) = Found-or i a rows (row_for i rows) (row_for-Found i rows)

pub differ : (b : Bool) → b ≡ false → b ≡ true → ⊥
differ b e f = cc

module _ (user : Text) (now : ℕ) (credential : InboundMark → Result SyncError Text)
    (fresh_id : Text → Text) where
  -- What a step does to the rows.
  abbrev pub Step : Text → Option Assignment → List Assignment → List Assignment → Type 0
  Step i current rows rows' =
      ((is_current user now credential fresh_id current ≡ true) × (rows' ≡ rows))
      ⊎ ((secret : Text) × (rows' ≡ with_row user now credential fresh_id i secret current rows))

  enable_in-rows :
      (o : Option InboundMark) (i : Text) (current : Option Assignment) (db db' : Db)
      → enable_in user now credential fresh_id o i current db ≡ ok db'
      → (secret : Text) × (db'.assignments
          ≡ with_row user now credential fresh_id i secret current db.assignments)
  enable_in-rows none i current db db' e = cc
  enable_in-rows (some row) i current db db' e =
      let (secret, f, rest) = bind-ok (credential row) _ e in
      (secret, mark_assignment_changed-assignments i user _ db' rest)

  pub enable_one-Step :
      (i : Text) (current : Option Assignment) (db db' : Db)
      → enable_one user now credential fresh_id i current db ≡ ok db'
      → Step i current db.assignments db'.assignments
  unfolding enable_one
  enable_one-Step i current db db' e =
      elim (Bool-cases (is_current user now credential fresh_id current)) [
        | inl fine ↦ inl (fine, ap (λ x. x.assignments) (sym (returned db db' (rw fine at e))))
        | inr missing ↦
            inr
              (enable_in-rows (inbound_row i db.marks.inbounds) i current db db' (rw missing at e))
      ]

  -- An active assignment stays one.
  pub ActiveFor-with_row :
      (j i secret : Text) (current : Option Assignment) (rows : List Assignment)
      → ActiveFor user j rows
      → ActiveFor user j (with_row user now credential fresh_id i secret current rows)
  ActiveFor-with_row j i secret none rows (r, m, u, e, a) =
      (r, Member-left r rows (new_row user now credential fresh_id i secret ∷ []) m, u, e, a)
  ActiveFor-with_row j i secret (some c) rows (r, m, u, e, a) =
      elim (Bool-cases (text_eq r.id c.id)) [
        | inl hit ↦ (
          enabled_row user now credential fresh_id secret r,
          update_assignment-hit r c.id (enabled_row user now credential fresh_id secret) rows hit m,
          u,
          e,
          refl,
        )
        | inr miss ↦ (
          r,
          update_assignment-other r c.id (enabled_row user now credential fresh_id secret) rows miss
              m,
          u,
          e,
          a,
        )
      ]
