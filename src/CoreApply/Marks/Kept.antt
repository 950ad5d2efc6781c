-- ===== src/CoreApply/Marks/Kept.antt =====
-- The rows that a marking leaves.
use mathlib.Core.Path.{subst}
use over_vpn.Base.{
  ℕ, true, false, ◌&&◌, List, [], ◌∷◌, map, filter, Option, none, some, Text, text_eq, text_eq_iff,
  if◌then◌else◌, ◌==◌, ==_iff, All, ◌≡◌, ◌≢◌, ◌⊎◌, refl, arith, ◌∙◌, Bool-cases, inl, inr,
}
use over_vpn.CoreApply.{
  Revision, UserMark, InboundMark, DesiredState, EngineOutcome, unmark_user,
  mark_user_revisions_applied, unmark_inbound, mark_inbound_revisions_applied, set_revision,
  set_revisions, collect_revisions,
}
use over_vpn.CoreApply.Local.{is_succeeded}

abbrev pub Member : {A : Type 0} → A → List A → Type 0
Member x [] = ⊥
Member x (y ∷ ys) = (x ≡ y) ⊎ Member x ys

-- A list of revisions does not have a row at its revision.
abbrev pub Apart : Text → ℕ → List Revision → Type 0
Apart id revision = All (λ r. id ≡ r.id → revision ≢ r.revision)

abbrev pub ApartOf : Text → ℕ → Option DesiredState → Type 0
ApartOf id revision none = Unit
ApartOf id revision (some s) = Apart id revision s.user_revisions

abbrev pub InboundApart : Text → ℕ → Option DesiredState → Type 0
InboundApart id revision none = Unit
InboundApart id revision (some s) = Apart id revision s.inbound_revisions

user_unmatched :
    (r : Revision) (u : UserMark)
    → (u.id ≡ r.id → u.revision ≢ r.revision)
    → u ≡ (
        if text_eq u.id r.id && (u.revision == r.revision)
        then record u { needs_apply = false }
        else u)
user_unmatched r u d = elim (Bool-cases (text_eq u.id r.id && (u.revision == r.revision))) [
  | inl hit ↦ absurd (
      d ((text_eq_iff u.id r.id).0 (ground (arith, hit)))
        ((==_iff u.revision r.revision).0 (ground (arith, hit))))
  | inr miss ↦ rw miss refl
]

unmark_user-keeps :
    (u : UserMark) (r : Revision) (users : List UserMark)
    → (u.id ≡ r.id → u.revision ≢ r.revision)
    → Member u users
    → Member u (unmark_user r users)
unfolding unmark_user
unmark_user-keeps u r [] d m = elim m [ ]
unmark_user-keeps u r (v ∷ vs) d (inl same) =
    inl (same ∙ user_unmatched r v (subst (λ x. x.id ≡ r.id → x.revision ≢ r.revision) same d))
unmark_user-keeps u r (v ∷ vs) d (inr m) = inr (unmark_user-keeps u r vs d m)

pub mark_user_revisions_applied-keeps :
    (u : UserMark) (rs : List Revision) (users : List UserMark)
    → Apart u.id u.revision rs
    → Member u users
    → Member u (mark_user_revisions_applied rs users)
unfolding mark_user_revisions_applied
mark_user_revisions_applied-keeps u [] users d m = m
mark_user_revisions_applied-keeps u (r ∷ rs) users (d, ds) m =
    mark_user_revisions_applied-keeps u rs (unmark_user r users) ds
      (unmark_user-keeps u r users d m)

inbound_unmatched :
    (r : Revision) (u : InboundMark)
    → (u.id ≡ r.id → u.revision ≢ r.revision)
    → u ≡ (
        if text_eq u.id r.id && (u.revision == r.revision)
        then record u { needs_apply = false }
        else u)
inbound_unmatched r u d = elim (Bool-cases (text_eq u.id r.id && (u.revision == r.revision))) [
  | inl hit ↦ absurd (
      d ((text_eq_iff u.id r.id).0 (ground (arith, hit)))
        ((==_iff u.revision r.revision).0 (ground (arith, hit))))
  | inr miss ↦ rw miss refl
]

unmark_inbound-keeps :
    (u : InboundMark) (r : Revision) (inbounds : List InboundMark)
    → (u.id ≡ r.id → u.revision ≢ r.revision)
    → Member u inbounds
    → Member u (unmark_inbound r inbounds)
unfolding unmark_inbound
unmark_inbound-keeps u r [] d m = elim m [ ]
unmark_inbound-keeps u r (v ∷ vs) d (inl same) =
    inl (same ∙ inbound_unmatched r v (subst (λ x. x.id ≡ r.id → x.revision ≢ r.revision) same d))
unmark_inbound-keeps u r (v ∷ vs) d (inr m) = inr (unmark_inbound-keeps u r vs d m)

pub mark_inbound_revisions_applied-keeps :
    (u : InboundMark) (rs : List Revision) (inbounds : List InboundMark)
    → Apart u.id u.revision rs
    → Member u inbounds
    → Member u (mark_inbound_revisions_applied rs inbounds)
unfolding mark_inbound_revisions_applied
mark_inbound_revisions_applied-keeps u [] inbounds d m = m
mark_inbound_revisions_applied-keeps u (r ∷ rs) inbounds (d, ds) m =
    mark_inbound_revisions_applied-keeps u rs (unmark_inbound r inbounds) ds
      (unmark_inbound-keeps u r inbounds d m)

set_revision-Apart :
    (id : Text) (n : ℕ) (r : Revision) (rs : List Revision)
    → (id ≡ r.id → n ≢ r.revision)
    → Apart id n rs
    → Apart id n (set_revision r rs)
set_revision-Apart id n r [] d h = (d, tt)
set_revision-Apart id n r (s ∷ ss) d (e, h) =
    elim (text_eq s.id r.id) as (λ b. Apart id n (if b then r ∷ ss else s ∷ set_revision r ss)) [
      | true ↦ (d, h)
      | false ↦ (e, set_revision-Apart id n r ss d h)
    ]

set_revisions-Apart :
    (id : Text) (n : ℕ) (rs into : List Revision)
    → Apart id n rs
    → Apart id n into
    → Apart id n (set_revisions rs into)
set_revisions-Apart id n [] into d h = h
set_revisions-Apart id n (r ∷ rs) into (d, ds) h =
    set_revisions-Apart id n rs (set_revision r into) ds (set_revision-Apart id n r into d h)

pub collect_revisions-Apart :
    (id : Text) (n : ℕ) (states : List (Option DesiredState)) (into : List Revision)
    → All (ApartOf id n) states
    → Apart id n into
    → Apart id n (collect_revisions states into)
collect_revisions-Apart id n [] into d h = h
collect_revisions-Apart id n (none ∷ states) into (d, ds) h =
    collect_revisions-Apart id n states into ds h
collect_revisions-Apart id n (some s ∷ states) into (d, ds) h =
    collect_revisions-Apart id n states (set_revisions s.user_revisions into) ds
      (set_revisions-Apart id n s.user_revisions into d h)

pub All-states :
    (P : Option DesiredState → Type 0) (os : List EngineOutcome)
    → All (λ o. P o.state) os
    → All P (map (λ o. o.state) (filter is_succeeded os))
All-states P [] h = tt
All-states P (o ∷ os) (d, h) =
    elim (is_succeeded o)
      as (λ b.
        All P
          (map (λ o. o.state) (if b then o ∷ filter is_succeeded os else filter is_succeeded os))) [
            | true ↦ (d, All-states P os h)
            | false ↦ All-states P os h
          ]
