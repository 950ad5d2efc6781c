-- ===== src/DailyUsage/Drained/Totals.antt =====
-- Grouping and storing return a value where the totals fit.
use mathlib.Core.Path.{subst}
use over_vpn.Base.{
  ℕ, true, List, [], ◌∷◌, Text, text_eq_refl, ◌≡◌, refl, arith, ap, ◌∙◌, sym, Bool-cases, inl, inr,
  ok,
}
use over_vpn.Schema.{Bytes, no_bytes, add_bytes, add_bytes_assoc}
use over_vpn.DailyUsage.{
  LedgerRow, UsageRow, utc_day, is_of, add_to_group, group_deltas, upsert, upsert_all,
}
use over_vpn.DailyUsage.Conservation.{
  when, usage_of, deltas_of, falls_on, usage_of-add_to_group, usage_of-upsert,
}
use over_vpn.DailyUsage.Drained.Room.{
  Good, Small, AllGood, AllGoodDeltas, Small-left, Good-add, checked_bytes_total, increment_total,
  usage_of-Good, deltas_of-Good, room_here, room_after,
}

pub add_to_group_total :
    (u : Text) (d : ℕ) (b : Bytes) (gs : List UsageRow)
    → AllGood gs
    → Good b
    → Small (add_bytes (usage_of u d gs) b)
    → (gs' : List UsageRow) × (add_to_group u d b gs ≡ ok gs') × AllGood gs'
unfolding add_to_group usage_of
add_to_group_total u d b [] h k s = (
  record { user_id = u; day = d; bytes = add_bytes no_bytes b } ∷ [],
  rw (checked_bytes_total no_bytes b ((ground arith)) k s) refl,
  (Good-add no_bytes b (ground arith) k, tt),
)
add_to_group_total u d b (g ∷ gs) (k', h) k s = elim (Bool-cases (is_of u d g)) [
  | inl hit ↦ (
    record g { bytes = add_bytes g.bytes b } ∷ gs,
    rw (hit, checked_bytes_total g.bytes b k' k (room_here u d g gs b h hit s)) refl,
    (Good-add g.bytes b k' k, h),
  )
  | inr miss ↦
      let (more, e, good) = add_to_group_total u d b gs h k (room_after u d g gs b miss s) in
      (g ∷ more, rw (miss, e) refl, (k', good))
]

falls_on-own : (x : LedgerRow) → falls_on x.user_id (utc_day x.observed_at) x ≡ true
falls_on-own x = ground (arith, text_eq_refl x.user_id)

own_room :
    (x : LedgerRow) (ds : List LedgerRow) (gs : List UsageRow)
    → AllGoodDeltas ds
    → ((u : Text) (d : ℕ) → Small (add_bytes (usage_of u d gs) (deltas_of u d (x ∷ ds))))
    → Small (add_bytes (usage_of x.user_id (utc_day x.observed_at) gs) x.bytes)
unfolding deltas_of
own_room x ds gs k s =
    let u = x.user_id in
    let d = utc_day x.observed_at in
    Small-left (add_bytes (usage_of u d gs) x.bytes) (deltas_of u d ds) (deltas_of-Good u d ds k) (
      subst Small (sym (add_bytes_assoc (usage_of u d gs) x.bytes (deltas_of u d ds))) (
        subst
          (λ t. Small (add_bytes (usage_of u d gs) (add_bytes (when t x.bytes) (deltas_of u d ds))))
          (falls_on-own x) (s u d)))

pub group_deltas_total :
    (ds : List LedgerRow) (gs : List UsageRow)
    → AllGood gs
    → AllGoodDeltas ds
    → ((u : Text) (d : ℕ) → Small (add_bytes (usage_of u d gs) (deltas_of u d ds)))
    → (gs' : List UsageRow) × (group_deltas ds gs ≡ ok gs') × AllGood gs'
unfolding group_deltas deltas_of
group_deltas_total [] gs h k s = (gs, refl, h)
group_deltas_total (x ∷ ds) gs h (g, k) s =
    let (more, e, good) =
      add_to_group_total x.user_id (utc_day x.observed_at) x.bytes gs h g (own_room x ds gs k s) in
    let (gs', f, good') = group_deltas_total ds more good k (λ u d.
      subst Small
        (sym (
          ap (λ x. add_bytes x (deltas_of u d ds))
            (usage_of-add_to_group u d x.user_id (utc_day x.observed_at) x.bytes gs more e)
          ∙ add_bytes_assoc _ _ _))
        (s u d)) in
    (gs', rw e f, good')

pub upsert_total :
    (g : UsageRow) (rs : List UsageRow)
    → AllGood rs
    → Good g.bytes
    → Small (add_bytes (usage_of g.user_id g.day rs) g.bytes)
    → (rs' : List UsageRow) × (upsert g rs ≡ ok rs') × AllGood rs'
unfolding upsert
upsert_total g [] h k s = (g ∷ [], refl, (k, tt))
upsert_total g (r ∷ rs) (k', h) k s = elim (Bool-cases (is_of g.user_id g.day r)) [
  | inl hit ↦ (
    record r { bytes = add_bytes r.bytes g.bytes } ∷ rs,
    rw (hit, increment_total r.bytes g.bytes (room_here g.user_id g.day r rs g.bytes h hit s)) refl,
    (Good-add r.bytes g.bytes k' k, h),
  )
  | inr miss ↦
      let (more, e, good) =
        upsert_total g rs h k (room_after g.user_id g.day r rs g.bytes miss s) in
      (r ∷ more, rw (miss, e) refl, (k', good))
]

is_of-own : (g : UsageRow) → is_of g.user_id g.day g ≡ true
is_of-own g = ground (arith, text_eq_refl g.user_id)

own_space :
    (g : UsageRow) (gs rs : List UsageRow)
    → AllGood gs
    → ((u : Text) (d : ℕ) → Small (add_bytes (usage_of u d rs) (usage_of u d (g ∷ gs))))
    → Small (add_bytes (usage_of g.user_id g.day rs) g.bytes)
unfolding usage_of
own_space g gs rs h s =
    let u = g.user_id in
    let d = g.day in
    Small-left (add_bytes (usage_of u d rs) g.bytes) (usage_of u d gs) (usage_of-Good u d gs h) (
      subst Small (sym (add_bytes_assoc (usage_of u d rs) g.bytes (usage_of u d gs))) (
        subst
          (λ t. Small (add_bytes (usage_of u d rs) (add_bytes (when t g.bytes) (usage_of u d gs))))
          (is_of-own g) (s u d)))

pub upsert_all_total :
    (gs rs : List UsageRow)
    → AllGood gs
    → AllGood rs
    → ((u : Text) (d : ℕ) → Small (add_bytes (usage_of u d rs) (usage_of u d gs)))
    → (rs' : List UsageRow) × (upsert_all gs rs ≡ ok rs') × AllGood rs'
unfolding upsert_all usage_of
upsert_all_total [] rs h k s = (rs, refl, k)
upsert_all_total (g ∷ gs) rs (j, h) k s =
    let (more, e, good) = upsert_total g rs k j (own_space g gs rs h s) in
    let (rs', f, good') = upsert_all_total gs more h good (λ u d.
      subst Small
        (sym (
          ap (λ x. add_bytes x (usage_of u d gs)) (usage_of-upsert u d g rs more e)
          ∙ add_bytes_assoc _ _ _))
        (s u d)) in
    (rs', rw e f, good')
