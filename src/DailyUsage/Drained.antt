-- ===== src/DailyUsage/Drained.antt =====
-- Enough runs aggregate every delta.
pub mod Room
pub mod Totals
use mathlib.Core.Path.{subst}
use over_vpn.Base.{
  ℕ, zero, suc, ◌+◌, ◌-◌, ◌*◌, ◌≤◌, Bool, true, false, List, [], ◌∷◌, take, length, Text, ◌≡◌, refl,
  arith, ap, ◌∙◌, sym, Result, ok, throw, ◌>>=◌,
}
use over_vpn.Schema.{
  Bytes, no_bytes, add_bytes, zero_add_bytes, add_bytes_assoc, add_bytes_comm, add_bytes_zero,
}
use over_vpn.DailyUsage.{
  LedgerRow, UsageRow, Tables, Settings, Aggregated, Answers, run_once, aggregate, pending,
  group_deltas, upsert_all, mark, prune, ids_of, healthy, AggregationResult,
}
use over_vpn.DailyUsage.Batch.{drop, Distinct}
use over_vpn.DailyUsage.Conservation.{
  usage_of, deltas_of, deltas_of-split, total, total-aggregate, aggregate_cases,
  usage_of-group_deltas,
}
use Room.{
  Good, Small, AllGood, AllGoodDeltas, Small-left, usage_of-Good, deltas_of-Good, Good-take,
  Good-drop,
}
use Totals.{group_deltas_total, upsert_all_total}

-- The ids of the ledger are unique, no byte count is negative, and every total fits its column.
pub record Ready (t : Tables) : Type 0 where
  pub apart : Distinct t.ledger
  pub stored : AllGood t.usage
  pub waiting : AllGoodDeltas (pending t.ledger)
  pub fits : (u : Text) (d : ℕ) → Small (total u d t)

-- Every answer of the lock is the good one.
abbrev pub steady : Answers
steady = record {
  enabled = true;
  lock_acquired = true;
  owned_in_transaction = true;
  owned_at_end = true;
}

-- Runs at the given instants.
unfoldable pub runs : Settings → List ℕ → Tables → Tables
runs s [] t = t
runs s (now ∷ later) t = runs s later (run_once s now steady t).1

abbrev batch_of : Settings → Tables → List LedgerRow
batch_of s t = take s.batch_size (pending t.ledger)

-- The totals leave room for the batch.
room :
    (s : Settings) (t : Tables)
    → Ready t
    → (u : Text) (d : ℕ) → Small (add_bytes (usage_of u d t.usage) (deltas_of u d (batch_of s t)))
room s t r u d =
    Small-left _ (deltas_of u d (drop s.batch_size (pending t.ledger)))
      (deltas_of-Good u d (drop s.batch_size (pending t.ledger))
        (Good-drop s.batch_size (pending t.ledger) r.waiting))
      (subst Small
        (ap (add_bytes (usage_of u d t.usage)) (deltas_of-split u d s.batch_size (pending t.ledger))
          ∙ sym (add_bytes_assoc _ _ _))
        (r.fits u d))

room_alone :
    (s : Settings) (t : Tables)
    → Ready t
    → (u : Text) (d : ℕ) → Small (add_bytes (usage_of u d []) (deltas_of u d (batch_of s t)))
unfolding usage_of
room_alone s t r u d = subst Small (sym (zero_add_bytes _)) (
    Small-left _ (usage_of u d t.usage) (usage_of-Good u d t.usage r.stored)
      (subst Small (add_bytes_comm _ _) (room s t r u d)))

-- A transaction on such tables commits, and leaves such tables.
aggregate_total :
    (s : Settings) (now : ℕ) (t : Tables)
    → Ready t
    → (a : Aggregated) × (t' : Tables) × (aggregate s now true t ≡ ok (a, t')) × Ready t'
unfolding aggregate usage_of deltas_of
aggregate_total s now t r =
    let waiting = Good-take s.batch_size (pending t.ledger) r.waiting in
    let (groups, e, good) = group_deltas_total (batch_of s t) [] tt waiting (room_alone s t r) in
    let (usage, f, good') = upsert_all_total groups t.usage good r.stored (λ u d.
      subst (λ x. Small (add_bytes (usage_of u d t.usage) x))
        (sym (usage_of-group_deltas u d (batch_of s t) [] groups e ∙ zero_add_bytes _))
        (room s t r u d)) in
    let marked = mark (ids_of (batch_of s t)) now t.ledger in
    let kept = prune (now - s.retention_days * 86400000) marked in
    let a : Aggregated = record {
      consumed = length (batch_of s t);
      groups = length groups;
      pruned = length marked - length kept;
    } in
    let t' : Tables = record { ledger = kept; usage = usage } in
    let done : aggregate s now true t ≡ ok (a, t') = rw (e, f) refl in
    let c = aggregate_cases s now true t t' a r.apart done in
    (
      a,
      t',
      done,
      record {
        apart = c.apart;
        stored = good';
        waiting =
            subst AllGoodDeltas (sym c.left) (Good-drop s.batch_size (pending t.ledger) r.waiting);
        fits = λ u d.
            subst Small (sym (total-aggregate u d s now true t t' a r.apart done)) (r.fits u d);
      },
    )

run_steady :
    (s : Settings) (now : ℕ) (t t' : Tables) (a : Aggregated)
    → aggregate s now true t ≡ ok (a, t')
    → run_once s now steady t ≡ (healthy a, t')
unfolding run_once
run_steady s now t t' a e = rw e refl

length-drop : {A : Type 0} (n : ℕ) (xs : List A) → 1 ≤ n → length (drop n xs) ≤ length xs - 1
length-drop zero xs h = omega arith
length-drop (suc n) [] h = omega arith
length-drop (suc zero) (x ∷ xs) h = omega arith
length-drop (suc (suc n)) (x ∷ xs) h = omega (arith, length-drop (suc n) xs (omega arith))

empty : {A : Type 0} (xs : List A) → length xs ≤ 0 → xs ≡ []
empty [] h = refl
empty (x ∷ xs) h = absurd (omega arith)

-- With a batch of at least one, different ids, no negative byte count and totals that fit a signed
-- 64-bit integer, as many undisturbed runs as deltas wait leave none, and the daily rows then hold
-- the totals of every user and day.
pub drained :
    (s : Settings) (nows : List ℕ) (t : Tables)
    → 1 ≤ s.batch_size
    → Ready t
    → length (pending t.ledger) ≤ length nows
    → (pending (runs s nows t).ledger ≡ [])
      × ((u : Text) (d : ℕ) → usage_of u d (runs s nows t).usage ≡ total u d t)
unfolding runs deltas_of
drained s [] t b r h =
    let none_left = empty (pending t.ledger) h in
    (
      none_left,
      λ u d. sym (
          ap (λ x. add_bytes (usage_of u d t.usage) (deltas_of u d x)) none_left
          ∙ add_bytes_zero _),
    )
drained s (now ∷ later) t b r h =
    let (a, t', done, ready) = aggregate_total s now t r in
    let c = aggregate_cases s now true t t' a r.apart done in
    let fewer = length-drop s.batch_size (pending t.ledger) b in
    let (left, sums) = drained s later t' b ready (omega (arith, ap length c.left, fewer, h)) in
    subst
      (λ x.
        (pending (runs s later x).ledger ≡ [])
        × ((u : Text) (d : ℕ) → usage_of u d (runs s later x).usage ≡ total u d t))
      (sym (ap (λ x. x.1) (run_steady s now t t' a done)))
      (left, λ u d. sums u d ∙ total-aggregate u d s now true t t' a r.apart done)
