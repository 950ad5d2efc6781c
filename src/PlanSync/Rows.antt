-- ===== src/PlanSync/Rows.antt =====
-- The rows of the assignments under updates and filters.
use mathlib.Core.Path.{subst}
use over_vpn.Base.{
  Bool, true, false, List, [], ◌∷◌, filter, Text, text_eq, if◌then◌else◌, ◌≡◌, ◌⊎◌, refl, ap, ◌∙◌,
  sym, Bool-cases, inl, inr,
}
use over_vpn.CoreApply.Marks.Kept.{Member}
use over_vpn.PlanSync.{Assignment, update_assignment}

-- A row that an update leaves, and where the rows of an update come from.
pub update_assignment-other :
    (c : Assignment) (id : Text) (f : Assignment → Assignment) (rows : List Assignment)
    → text_eq c.id id ≡ false
    → Member c rows
    → Member c (update_assignment id f rows)
unfolding update_assignment
update_assignment-other c id f [] d m = elim m [ ]
update_assignment-other c id f (a ∷ as_rest) d (inl e) =
    inl (e ∙ sym (rw (ap (λ x. text_eq x.id id) (sym e) ∙ d) refl))
update_assignment-other c id f (a ∷ as_rest) d (inr m) =
    inr (update_assignment-other c id f as_rest d m)

pub update_assignment-hit :
    (c : Assignment) (id : Text) (f : Assignment → Assignment) (rows : List Assignment)
    → text_eq c.id id ≡ true
    → Member c rows
    → Member (f c) (update_assignment id f rows)
unfolding update_assignment
update_assignment-hit c id f [] d m = elim m [ ]
update_assignment-hit c id f (a ∷ as_rest) d (inl e) =
    inl (ap f e ∙ sym (rw (ap (λ x. text_eq x.id id) (sym e) ∙ d) refl))
update_assignment-hit c id f (a ∷ as_rest) d (inr m) =
    inr (update_assignment-hit c id f as_rest d m)

-- What a row of the updated table was.
abbrev pub Was : Text → (Assignment → Assignment) → Assignment → Assignment → Type 0
Was id f r a = ((text_eq a.id id ≡ true) × (r ≡ f a)) ⊎ ((text_eq a.id id ≡ false) × (r ≡ a))

Was-row :
    (r : Assignment) (id : Text) (f : Assignment → Assignment) (a : Assignment)
    → r ≡ (if text_eq a.id id then f a else a)
    → Was id f r a
Was-row r id f a e = elim (Bool-cases (text_eq a.id id)) [
  | inl hit ↦ inl (hit, e ∙ rw hit refl)
  | inr miss ↦ inr (miss, e ∙ rw miss refl)
]

pub update_assignment-Was :
    (r : Assignment) (id : Text) (f : Assignment → Assignment) (rows : List Assignment)
    → Member r (update_assignment id f rows)
    → (a : Assignment) × Member a rows × Was id f r a
unfolding update_assignment
update_assignment-Was r id f [] m = elim m [ ]
update_assignment-Was r id f (a ∷ as_rest) (inl e) = (a, inl refl, Was-row r id f a e)
update_assignment-Was r id f (a ∷ as_rest) (inr m) =
    let (b, n, w) = update_assignment-Was r id f as_rest m in (b, inr n, w)

filter_first :
    {A : Type 0} (p : A → Bool) (a : A) (rows : List A)
    → p a ≡ true
    → filter p (a ∷ rows) ≡ a ∷ filter p rows
filter_first p a rows h = rw h refl

pub filter-Member :
    {A : Type 0} (p : A → Bool) (r : A) (rows : List A)
    → p r ≡ true
    → Member r rows
    → Member r (filter p rows)
filter-Member p r [] h m = elim m [ ]
filter-Member p r (a ∷ as_rest) h (inl e) =
    subst (Member r) (sym (filter_first p a as_rest (ap p (sym e) ∙ h))) (inl e)
filter-Member p r (a ∷ as_rest) h (inr m) =
    elim (p a) as (λ b. Member r (if b then a ∷ filter p as_rest else filter p as_rest)) [
      | true ↦ inr (filter-Member p r as_rest h m)
      | false ↦ filter-Member p r as_rest h m
    ]

from_either :
    (p : Assignment → Bool) (r a : Assignment) (rows : List Assignment) (b : Bool)
    → p a ≡ b
    → (Member r (filter p rows) → Member r rows × (p r ≡ true))
    → Member r (if b then a ∷ filter p rows else filter p rows)
    → Member r (a ∷ rows) × (p r ≡ true)
from_either p r a rows true e f (inl same) = (inl same, ap p same ∙ e)
from_either p r a rows true e f (inr m) = let (n, h) = f m in (inr n, h)
from_either p r a rows false e f m = let (n, h) = f m in (inr n, h)

pub Member-of_filter :
    (p : Assignment → Bool) (r : Assignment) (rows : List Assignment)
    → Member r (filter p rows)
    → Member r rows × (p r ≡ true)
Member-of_filter p r [] m = elim m [ ]
Member-of_filter p r (a ∷ as_rest) m =
    from_either p r a as_rest (p a) refl (Member-of_filter p r as_rest) m
