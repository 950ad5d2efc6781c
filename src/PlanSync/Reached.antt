-- ===== src/PlanSync/Reached.antt =====
-- The rows while the loop enables the assignments of the plan.
use mathlib.Core.Path.{subst}
use over_vpn.Base.{
  ℕ, true, false, List, [], ◌∷◌, ◌++◌, Option, none, some, Text, text_eq, text_eq_iff, ◌≡◌, ◌⊎◌,
  refl, ap, ◌∙◌, sym, Bool-cases, inl, inr, Result, ok, bind-ok,
}
use over_vpn.CoreApply.{InboundMark}
use over_vpn.CoreApply.Marks.Kept.{Member}
use over_vpn.PlanSync.{
  Assignment, Db, SyncError, is_active, mem, update_assignment, row_for, enabled_row, new_row,
  with_row, is_current, enable_one, enable_wanted,
}
use over_vpn.PlanSync.Rows.{update_assignment-other, update_assignment-hit, update_assignment-Was}
use over_vpn.PlanSync.Disabled.{returned}
use over_vpn.PlanSync.Enabled.{
  ActiveFor, Member-left, Member-last, Member-snoc, Found, row_for-Found, differ, Step,
  enable_one-Step, ActiveFor-with_row,
}

module _ (user : Text) (now : ℕ) (credential : InboundMark → Result SyncError Text)
    (fresh_id : Text → Text) where
  module _ (existing : List Assignment) (wanted : List Text)
      (own : (c : Assignment) → Member c existing → c.user_id ≡ user)
      (unused : (i : Text) (c : Assignment)
        → Member c existing
        → text_eq (fresh_id i) c.id ≡ false) where
    pub record Good (rows : List Assignment) : Type 0 where
      pub present :
          (c : Assignment)
          → Member c existing
          → (r : Assignment) × Member r rows
            × (r.id ≡ c.id)
            × (r.user_id ≡ c.user_id)
            × (r.inbound_id ≡ c.inbound_id)
      pub agree :
          (r : Assignment)
          → Member r rows
          → (c : Assignment) → Member c existing
          → text_eq r.id c.id ≡ true
          → r.inbound_id ≡ c.inbound_id
      pub only :
          (r : Assignment)
          → Member r rows
          → text_eq r.user_id user ≡ true
          → is_active r ≡ true
          → mem r.inbound_id wanted ≡ true

    -- A new row.
    Good-new :
        (i secret : Text) (rows : List Assignment)
        → mem i wanted ≡ true
        → Good rows
        → Good (rows ++ new_row user now credential fresh_id i secret ∷ [])
    Good-new i secret rows w g = record {
      present = λ c m. let (r, n, a, b, d) = g.present c m in (r, Member-left r rows _ n, a, b, d);
      agree = λ r m c n h. elim (Member-snoc r _ rows m) [
        | inl old ↦ g.agree r old c n h
        | inr e ↦ absurd (
            differ (text_eq (fresh_id i) c.id) (unused i c n)
              (ap (λ x. text_eq x.id c.id) (sym e) ∙ h))
      ];
      only = λ r m u a. elim (Member-snoc r _ rows m) [
        | inl old ↦ g.only r old u a
        | inr e ↦ ap (λ x. mem x.inbound_id wanted) e ∙ w
      ];
    }

    -- A row that is enabled again.
    Good-update :
        (i secret : Text) (c : Assignment) (rows : List Assignment)
        → mem i wanted ≡ true
        → Member c existing
        → c.inbound_id ≡ i
        → Good rows
        → Good (update_assignment c.id (enabled_row user now credential fresh_id secret) rows)
    Good-update i secret c rows w mc ci g = record {
      present = λ d m.
          let (r, n, x, y, z) = g.present d m in
          elim (Bool-cases (text_eq r.id c.id)) [
            | inl hit ↦ (
              enabled_row user now credential fresh_id secret r,
              update_assignment-hit r c.id (enabled_row user now credential fresh_id secret) rows
                  hit n,
              x,
              y,
              z,
            )
            | inr miss ↦ (
              r,
              update_assignment-other r c.id (enabled_row user now credential fresh_id secret) rows
                  miss n,
              x,
              y,
              z,
            )
          ];
      agree = λ r m d n h.
          let (b, k, was) =
            update_assignment-Was r c.id (enabled_row user now credential fresh_id secret) rows m in
          elim was [
            | inl (hit, e) ↦
                ap (λ x. x.inbound_id) e ∙ g.agree b k d n (ap (λ x. text_eq x.id d.id) (sym e) ∙ h)
            | inr (miss, e) ↦
                ap (λ x. x.inbound_id) e ∙ g.agree b k d n (ap (λ x. text_eq x.id d.id) (sym e) ∙ h)
          ];
      only = λ r m u a.
          let (b, k, was) =
            update_assignment-Was r c.id (enabled_row user now credential fresh_id secret) rows m in
          elim was [
            | inl (hit, e) ↦
                ap (λ x. mem x wanted) (ap (λ x. x.inbound_id) e ∙ g.agree b k c mc hit ∙ ci) ∙ w
            | inr (miss, e) ↦
                ap (λ x. mem x.inbound_id wanted) e
                ∙ g.only b k (ap (λ x. text_eq x.user_id user) (sym e) ∙ u)
                    (ap (λ x. is_active x) (sym e) ∙ a)
          ];
    }

    Good-with_row :
        (i secret : Text) (o : Option Assignment) (rows : List Assignment)
        → mem i wanted ≡ true
        → Found i existing o
        → Good rows
        → Good (with_row user now credential fresh_id i secret o rows)
    unfolding Found
    Good-with_row i secret none rows w f g = Good-new i secret rows w g
    Good-with_row i secret (some c) rows w (mc, ci) g = Good-update i secret c rows w mc ci g

    -- The inbound of the step is active after it.
    ActiveFor-enabled :
        (i secret : Text) (o : Option Assignment) (rows : List Assignment)
        → Found i existing o
        → Good rows
        → ActiveFor user i (with_row user now credential fresh_id i secret o rows)
    unfolding Found
    ActiveFor-enabled i secret none rows f g =
        (new_row user now credential fresh_id i secret, Member-last _ rows, refl, refl, refl)
    ActiveFor-enabled i secret (some c) rows (mc, ci) g =
        let (r, n, x, y, z) = g.present c mc in
        (
          enabled_row user now credential fresh_id secret r,
          update_assignment-hit r c.id (enabled_row user now credential fresh_id secret) rows
              ((text_eq_iff r.id c.id).1 x) n,
          y ∙ own c mc,
          z ∙ ci,
          refl,
        )

    -- What the loop has reached: good rows, and an active assignment for what was active at the start.
    pub record Reached (rows : List Assignment) : Type 0 where
      pub good : Good rows
      pub held :
          (c : Assignment)
          → Member c existing
          → is_active c ≡ true
          → mem c.inbound_id wanted ≡ true
          → ActiveFor user c.inbound_id rows

    current_active :
        (i : Text) (o : Option Assignment) (rows : List Assignment)
        → Found i existing o
        → mem i wanted ≡ true
        → is_current user now credential fresh_id o ≡ true
        → Reached rows
        → ActiveFor user i rows
    unfolding Found
    current_active i none rows f w a g = absurd (differ false refl a)
    current_active i (some c) rows (mc, ci) w a g =
        subst (λ x. ActiveFor user x rows) ci (g.held c mc a (ap (λ x. mem x wanted) ci ∙ w))

    -- One step.
    stepped :
        (i : Text) (rows rows' : List Assignment)
        → mem i wanted ≡ true
        → Step user now credential fresh_id i (row_for i existing) rows rows'
        → Reached rows
        → Reached rows'
          × ActiveFor user i rows'
          × ((j : Text) → ActiveFor user j rows → ActiveFor user j rows')
    stepped i rows rows' w (inl (fine, e)) g =
        subst
          (λ x.
            Reached x
            × ActiveFor user i x
            × ((j : Text) → ActiveFor user j rows → ActiveFor user j x))
          (sym e)
          (
            g,
            current_active i (row_for i existing) rows (row_for-Found i existing) w fine g,
            λ j a. a,
          )
    stepped i rows rows' w (inr (secret, e)) g =
        subst
          (λ x.
            Reached x
            × ActiveFor user i x
            × ((j : Text) → ActiveFor user j rows → ActiveFor user j x))
          (sym e)
          (
            record {
              good =
                  Good-with_row i secret (row_for i existing) rows w (row_for-Found i existing)
                    g.good;
              held = λ c m a v.
                  ActiveFor-with_row user now credential fresh_id c.inbound_id i secret
                    (row_for i existing) rows (g.held c m a v);
            },
            ActiveFor-enabled i secret (row_for i existing) rows (row_for-Found i existing) g.good,
            λ j a.
                ActiveFor-with_row user now credential fresh_id j i secret (row_for i existing) rows
                  a,
          )

    abbrev pub AllWanted : List Text → Type 0
    AllWanted [] = Unit
    AllWanted (i ∷ is) = (mem i wanted ≡ true) × AllWanted is

    -- The loop.
    pub enable_wanted-Reached :
        (is : List Text) (db db' : Db)
        → enable_wanted user now credential fresh_id is existing db ≡ ok db'
        → AllWanted is
        → Reached db.assignments
        → Reached db'.assignments
          × ((j : Text)
              → ActiveFor user j db.assignments ⊎ (mem j is ≡ true)
              → ActiveFor user j db'.assignments)
    unfolding enable_wanted
    enable_wanted-Reached [] db db' e w g =
        let same = ap (λ x. x.assignments) (returned db db' e) in
        (
          subst Reached same g,
          λ j h. elim h [
            | inl was ↦ subst (ActiveFor user j) same was
            | inr m ↦ absurd (differ false refl m)
          ],
        )
    enable_wanted-Reached (i ∷ is) db db' e (w, ws) g =
        let (after, f, rest) =
          bind-ok (enable_one user now credential fresh_id i (row_for i existing) db) _ e in
        let (g', a, keep) =
          stepped i db.assignments after.assignments w
            (enable_one-Step user now credential fresh_id i (row_for i existing) db after f) g in
        let (end, all_active) = enable_wanted-Reached is after db' rest ws g' in
        (
          end,
          λ j h. elim h [
            | inl was ↦ all_active j (inl (keep j was))
            | inr m ↦ elim (Bool-cases (text_eq i j)) [
              | inl same ↦ all_active j (
                  inl
                    (subst (λ x. ActiveFor user x after.assignments) ((text_eq_iff i j).0 same) a))
              | inr other ↦ all_active j (inr (rw other at m))
            ]
          ],
        )
