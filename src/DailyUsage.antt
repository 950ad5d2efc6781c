-- ===== src/DailyUsage.antt =====
-- apps/api/src/workers/daily-usage-aggregator.service.ts: the ledger of traffic deltas is summed up,
-- batch by batch, in one row for each user and UTC day. The ledger stands in the order of its ids.
-- The database refuses an increment that leaves a signed 64-bit integer.
pub mod Batch
pub mod Conservation
pub mod Drained
mod Tests
use over_vpn.Base.{
  ℕ, ◌+◌, ◌*◌, ◌-◌, Bool, true, false, not, ◌&&◌, ◌||◌, List, [], ◌∷◌, ◌++◌, map, filter, any, take,
  length, Option, none, some, is_some, Text, text_eq, if◌then◌else◌, ltb, ◌==◌, Result, ok, throw,
  ◌>>=◌, ltb_ℤ, ◌+ℤ◌,
}
use over_vpn.Calendar.{Civil, civil, utc}
use over_vpn.Schema.{Bytes, no_bytes, add_bytes}
use over_vpn.Accounting.{TrafficError, checked_byte_sum, max_signed_bigint}

-- The columns of a traffic delta that the aggregation reads.
pub record LedgerRow : Type 0 where
  pub id : ℕ
  pub user_id : Text
  pub bytes : Bytes
  pub observed_at : ℕ
  pub aggregated_at : Option ℕ

-- A row of `usage_daily` in the scope of users; also a group of deltas.
pub record UsageRow : Type 0 where
  pub user_id : Text
  pub day : ℕ
  pub bytes : Bytes

pub record Tables : Type 0 where
  pub ledger : List LedgerRow
  pub usage : List UsageRow

pub data AggregateError : Type 0 where
  accounting : TrafficError → AggregateError
  out_of_range : AggregateError
  lock_lost : AggregateError

-- `utcDay`
unfoldable pub utc_day : ℕ → ℕ
utc_day ms = let c = civil ms in utc c.year c.month c.day

abbrev pub lift {ℓ} : {A : Type ℓ} → Result TrafficError A → Result AggregateError A
lift (ok a) = ok a
lift (throw e) = throw (accounting e)

-- Both directions of a group, with a delta.
unfoldable pub checked_bytes : Bytes → Bytes → Result AggregateError Bytes
checked_bytes a b = lift (checked_byte_sum a.upload b.upload) >>= λ up.
    lift (checked_byte_sum a.download b.download) >>= λ down.
    ok (record { upload = up; download = down })

-- The key of a group and of a row: its user and its day.
abbrev pub is_of : Text → ℕ → UsageRow → Bool
is_of user day g = text_eq g.user_id user && (g.day == day)

-- `grouped` is a map whose key holds both parts.
unfoldable pub add_to_group :
    Text → ℕ → Bytes → List UsageRow → Result AggregateError (List UsageRow)
add_to_group user day b [] =
    checked_bytes no_bytes b >>= λ sum. ok (record { user_id = user; day = day; bytes = sum } ∷ [])
add_to_group user day b (g ∷ gs) =
    if is_of user day g
    then (checked_bytes g.bytes b >>= λ sum. ok (record g { bytes = sum } ∷ gs))
    else (add_to_group user day b gs >>= λ more. ok (g ∷ more))

-- The loop over the deltas.
unfoldable pub group_deltas : List LedgerRow → List UsageRow → Result AggregateError (List UsageRow)
group_deltas [] groups = ok groups
group_deltas (d ∷ ds) groups =
    add_to_group d.user_id (utc_day d.observed_at) d.bytes groups >>= λ more. group_deltas ds more

-- `increment` of the two columns.
unfoldable pub increment : Bytes → Bytes → Result AggregateError Bytes
increment a b =
    if ltb_ℤ max_signed_bigint (a.upload +ℤ b.upload)
      || ltb_ℤ max_signed_bigint (a.download +ℤ b.download)
    then throw out_of_range
    else ok (add_bytes a b)

-- `upsert` of one group.
unfoldable pub upsert : UsageRow → List UsageRow → Result AggregateError (List UsageRow)
upsert g [] = ok (g ∷ [])
upsert g (r ∷ rs) =
    if is_of g.user_id g.day r
    then (increment r.bytes g.bytes >>= λ sum. ok (record r { bytes = sum } ∷ rs))
    else (upsert g rs >>= λ more. ok (r ∷ more))

unfoldable pub upsert_all : List UsageRow → List UsageRow → Result AggregateError (List UsageRow)
upsert_all [] usage = ok usage
upsert_all (g ∷ gs) usage = upsert g usage >>= λ more. upsert_all gs more

abbrev pub is_pending : LedgerRow → Bool
is_pending r = not (is_some r.aggregated_at)

unfoldable pub pending : List LedgerRow → List LedgerRow
pending = filter is_pending

abbrev pub is_id : List ℕ → ℕ → Bool
is_id ids id = any (λ i. i == id) ids

abbrev pub ids_of : List LedgerRow → List ℕ
ids_of = map (λ r. r.id)

-- The deltas of a batch are aggregated, where they are not yet.
unfoldable pub mark : List ℕ → ℕ → List LedgerRow → List LedgerRow
mark ids now =
    map λ r. if is_id ids r.id && is_pending r then record r { aggregated_at = some now } else r

abbrev pub is_old : ℕ → LedgerRow → Bool
is_old cutoff r = is_some r.aggregated_at && ltb r.observed_at cutoff

unfoldable pub prune : ℕ → List LedgerRow → List LedgerRow
prune cutoff = filter (λ r. not (is_old cutoff r))

pub record Settings : Type 0 where
  pub batch_size : ℕ
  pub retention_days : ℕ

pub record Aggregated : Type 0 where
  pub consumed : ℕ
  pub groups : ℕ
  pub pruned : ℕ

-- The transaction; `verified` is the answer of `assertOwned.verify`.
unfoldable pub aggregate :
    Settings → ℕ → Bool → Tables → Result AggregateError (Aggregated × Tables)
aggregate s now verified t =
    let deltas = take s.batch_size (pending t.ledger) in
    let marked = mark (ids_of deltas) now t.ledger in
    let kept = prune (now - s.retention_days * 86400000) marked in
    group_deltas deltas [] >>= λ groups. upsert_all groups t.usage >>= λ usage.
    if verified
    then ok (
      record {
        consumed = length deltas;
        groups = length groups;
        pruned = length marked - length kept;
      },
      record { ledger = kept; usage = usage },
    )
    else throw lock_lost

pub data AggregationResult : Type 0 where
  not_acquired : AggregationResult
  healthy : Aggregated → AggregationResult
  failed : AggregationResult

-- What the lock answers in the course of a run.
pub record Answers : Type 0 where
  pub enabled : Bool
  pub lock_acquired : Bool
  pub owned_in_transaction : Bool
  pub owned_at_end : Bool

-- The end of a run: a transaction that threw leaves the tables, one that returned has committed.
abbrev pub concluded :
    Bool → Tables → Result AggregateError (Aggregated × Tables) → AggregationResult × Tables
concluded owned t (throw e) = (failed, t)
concluded owned t (ok (result, t')) = (if owned then healthy result else failed, t')

-- `runOnce`, without the records of the worker's health.
unfoldable pub run_once : Settings → ℕ → Answers → Tables → AggregationResult × Tables
run_once s now a t =
    if not a.enabled || not a.lock_acquired
    then (not_acquired, t)
    else concluded a.owned_at_end t (aggregate s now a.owned_in_transaction t)
