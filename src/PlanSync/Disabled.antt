-- ===== src/PlanSync/Disabled.antt =====
-- The loop that disables assignments.
use mathlib.Core.Path.{subst}
use over_vpn.Base.{
  ℕ, Bool, true, false, not, ◌&&◌, List, [], ◌∷◌, Option, none, some, Text, text_eq, text_eq_refl,
  ◌≡◌, refl, arith, ap, ◌∙◌, sym, Bool-cases, inl, inr, Result, ok, bind-ok,
}
use over_vpn.CoreApply.{InboundMark}
use over_vpn.CoreApply.Marks.Kept.{Member}
use over_vpn.PlanSync.{
  Assignment, Db, SyncError, mem, update_assignment, changed_row, inbound_row,
  mark_assignment_changed, disabled_row, is_superfluous, disable_rest,
}
use over_vpn.PlanSync.Rows.{
  update_assignment-other, update_assignment-hit, Was, update_assignment-Was,
}

abbrev success : Db → Result SyncError Db
success x = ok x

pub returned : (x y : Db) → success x ≡ success y → x ≡ y
returned x y e = cc

-- The marks are not the assignments.
changed_row-assignments :
    (o : Option InboundMark) (inbound user : Text) (db db' : Db)
    → changed_row o inbound user db ≡ ok db'
    → db'.assignments ≡ db.assignments
changed_row-assignments none inbound user db db' e = cc
changed_row-assignments (some i) inbound user db db' e = ground arith

pub mark_assignment_changed-assignments :
    (inbound user : Text) (db db' : Db)
    → mark_assignment_changed inbound user db ≡ ok db'
    → db'.assignments ≡ db.assignments
unfolding mark_assignment_changed
mark_assignment_changed-assignments inbound user db db' e =
    changed_row-assignments (inbound_row inbound db.marks.inbounds) inbound user db db' e

differ : (b : Bool) → b ≡ false → b ≡ true → ⊥
differ b e f = cc

module _ (user : Text) (now : ℕ) (wanted : List Text) where
  not_disabled :
      (b : Assignment) → is_superfluous user now wanted (disabled_row user now b) ≡ true → ⊥
  not_disabled b e =
      elim (mem b.inbound_id wanted) as (λ x. (not x && false) ≡ true → ⊥) [
        | true ↦ (λ h. cc)
        | false ↦ (λ h. cc)
      ]
        e

  -- One step of the loop, where it is one.
  disabled_step :
      (a : Assignment) (more : List Assignment) (db db' : Db)
      → is_superfluous user now wanted a ≡ true
      → disable_rest user now wanted (a ∷ more) db ≡ ok db'
      → (after : Db) × (after.assignments
          ≡ update_assignment a.id (disabled_row user now) db.assignments)
        × (disable_rest user now wanted more after ≡ ok db')
  unfolding disable_rest
  disabled_step a more db db' hit e =
      let (after, f, rest) =
        bind-ok
          (mark_assignment_changed a.inbound_id user (record db {
            assignments = update_assignment a.id (disabled_row user now) db.assignments;
          }))
          _ (rw hit at e) in
      (after, mark_assignment_changed-assignments a.inbound_id user _ after f, rest)

  kept_step :
      (a : Assignment) (more : List Assignment) (db : Db)
      → is_superfluous user now wanted a ≡ false
      → disable_rest user now wanted (a ∷ more) db ≡ disable_rest user now wanted more db
  unfolding disable_rest
  kept_step a more db miss = rw miss refl

  no_rows : (db db' : Db) → disable_rest user now wanted [] db ≡ ok db' → db ≡ db'
  unfolding disable_rest
  no_rows db db' e = returned db db' e

  -- The rows that the plan does not have and that are active are among those to come.
  abbrev pub Pending : List Assignment → List Assignment → Type 0
  Pending rows todo =
      (r : Assignment)
      → Member r rows
      → text_eq r.user_id user ≡ true
      → is_superfluous user now wanted r ≡ true
      → Member r todo

  Pending-case :
      (a : Assignment) (more rows : List Assignment)
      → Pending rows (a ∷ more)
      → (r b : Assignment) → Member b rows
      → Was a.id (disabled_row user now) r b
      → text_eq r.user_id user ≡ true
      → is_superfluous user now wanted r ≡ true
      → Member r more
  Pending-case a more rows h r b n (inl (hit, e)) of_user active_r =
      absurd (not_disabled b (ap (is_superfluous user now wanted) (sym e) ∙ active_r))
  Pending-case a more rows h r b n (inr (miss, e)) of_user active_r =
      elim (h r (subst (λ x. Member x rows) (sym e) n) of_user active_r) [
        | inl same ↦ absurd (
            differ (text_eq a.id a.id) (ap (λ x. text_eq x.id a.id) (sym same ∙ e) ∙ miss)
              (text_eq_refl a.id))
        | inr later ↦ later
      ]

  Pending-step :
      (a : Assignment) (more rows : List Assignment)
      → Pending rows (a ∷ more)
      → Pending (update_assignment a.id (disabled_row user now) rows) more
  Pending-step a more rows h r m of_user active_r =
      let (b, n, was) = update_assignment-Was r a.id (disabled_row user now) rows m in
      Pending-case a more rows h r b n was of_user active_r

  pub disable_rest-Pending :
      (todo : List Assignment) (db db' : Db)
      → disable_rest user now wanted todo db ≡ ok db'
      → Pending db.assignments todo
      → Pending db'.assignments []
  disable_rest-Pending [] db db' e h = subst (λ x. Pending x.assignments []) (no_rows db db' e) h
  disable_rest-Pending (a ∷ more) db db' e h =
      elim (Bool-cases (is_superfluous user now wanted a)) [
        | inl hit ↦
            let (after, f, rest) = disabled_step a more db db' hit e in
            disable_rest-Pending more after db' rest
              (subst (λ x. Pending x more) (sym f) (Pending-step a more db.assignments h))
        | inr miss ↦
            disable_rest-Pending more db db' (sym (kept_step a more db miss) ∙ e)
              (λ r m of_user active_r. elim (h r m of_user active_r) [
                | inl same ↦ absurd (
                    differ (is_superfluous user now wanted a) miss
                      (ap (is_superfluous user now wanted) (sym same) ∙ active_r))
                | inr n ↦ n
              ])
      ]

  -- A row that is none of those to be disabled stays.
  pub disable_rest-keeps :
      (c : Assignment) (todo : List Assignment) (db db' : Db)
      → disable_rest user now wanted todo db ≡ ok db'
      → ((a : Assignment)
          → Member a todo
          → is_superfluous user now wanted a ≡ true
          → text_eq c.id a.id ≡ false)
      → Member c db.assignments
      → Member c db'.assignments
  disable_rest-keeps c [] db db' e apart m =
      subst (λ x. Member c x.assignments) (no_rows db db' e) m
  disable_rest-keeps c (a ∷ more) db db' e apart m =
      elim (Bool-cases (is_superfluous user now wanted a)) [
        | inl hit ↦
            let (after, f, rest) = disabled_step a more db db' hit e in
            disable_rest-keeps c more after db' rest (λ b n h. apart b (inr n) h)
              (subst (Member c) (sym f) (
                update_assignment-other c a.id (disabled_row user now) db.assignments
                  (apart a (inl refl) hit) m))
        | inr miss ↦
            disable_rest-keeps c more db db' (sym (kept_step a more db miss) ∙ e)
              (λ b n h. apart b (inr n) h) m
      ]

  -- Two rows of one id, user and inbound.
  abbrev pub Same : Assignment → Assignment → Type 0
  Same r c = (r.id ≡ c.id) × (r.user_id ≡ c.user_id) × (r.inbound_id ≡ c.inbound_id)

  -- No row appears or goes.
  pub disable_rest-after :
      (c : Assignment) (todo : List Assignment) (db db' : Db)
      → disable_rest user now wanted todo db ≡ ok db'
      → (s : Assignment) × Member s db.assignments × Same s c
      → (r : Assignment) × Member r db'.assignments × Same r c
  disable_rest-after c [] db db' e h =
      subst (λ x. (s : Assignment) × Member s x.assignments × Same s c) (no_rows db db' e) h
  disable_rest-after c (a ∷ more) db db' e (s, m, same) =
      elim (Bool-cases (is_superfluous user now wanted a)) [
        | inl hit ↦
            let (after, f, rest) = disabled_step a more db db' hit e in
            disable_rest-after c more after db' rest (
              subst (λ x. (s : Assignment) × Member s x × Same s c) (sym f)
                (elim (Bool-cases (text_eq s.id a.id)) [
                  | inl here ↦ (
                    disabled_row user now s,
                    update_assignment-hit s a.id (disabled_row user now) db.assignments here m,
                    same,
                  )
                  | inr other ↦ (
                    s,
                    update_assignment-other s a.id (disabled_row user now) db.assignments other m,
                    same,
                  )
                ]))
        | inr miss ↦
            disable_rest-after c more db db' (sym (kept_step a more db miss) ∙ e) (s, m, same)
      ]

  pub disable_rest-before :
      (r : Assignment) (todo : List Assignment) (db db' : Db)
      → disable_rest user now wanted todo db ≡ ok db'
      → Member r db'.assignments
      → (b : Assignment) × Member b db.assignments × Same r b
  disable_rest-before r [] db db' e m =
      (r, subst (λ x. Member r x.assignments) (sym (no_rows db db' e)) m, (refl, refl, refl))
  disable_rest-before r (a ∷ more) db db' e m =
      elim (Bool-cases (is_superfluous user now wanted a)) [
        | inl hit ↦
            let (after, f, rest) = disabled_step a more db db' hit e in
            let (b, n, same) = disable_rest-before r more after db' rest m in
            let (d, k, was) =
              update_assignment-Was b a.id (disabled_row user now) db.assignments
                (subst (Member b) f n) in
            elim was [
              | inl (here, w) ↦ (
                d,
                k,
                (
                  same.0 ∙ ap (λ x. x.id) w,
                  same.1 ∙ ap (λ x. x.user_id) w,
                  same.2 ∙ ap (λ x. x.inbound_id) w,
                ),
              )
              | inr (other, w) ↦ (
                d,
                k,
                (
                  same.0 ∙ ap (λ x. x.id) w,
                  same.1 ∙ ap (λ x. x.user_id) w,
                  same.2 ∙ ap (λ x. x.inbound_id) w,
                ),
              )
            ]
        | inr miss ↦ disable_rest-before r more db db' (sym (kept_step a more db miss) ∙ e) m
      ]
