-- ===== src/Collector.antt =====
-- apps/api/src/workers/traffic-collector.service.ts: one run of the traffic collector. The rows of
-- the database are lists, a transaction that throws leaves them as they were, and the answers of
-- the lock's `verify` are arguments. The hash of the platform is the parameter `sha256`, its
-- collation of texts the parameter `compare_text`.
pub mod Transaction
pub mod Steps
pub mod Conservation
pub mod Usage
pub mod Snapshot
pub mod Replay
pub mod Parse
pub mod Run
mod Tests
use over_vpn.Base.{
  ℕ, suc, ◌+◌, ◌*◌, ◌/◌, ◌-◌, Bool, true, false, not, ◌&&◌, ◌||◌, List, [], ◌∷◌, ◌++◌, map, Option,
  none, some, Text, codes, text_eq, if◌then◌else◌, ltb, leb, ◌==◌, all, any, filter, is_some,
  length, get, put, has, ℤ, pos, ltb_ℤ, ◌+ℤ◌, Result, ok, throw, ◌>>=◌,
}
use over_vpn.Schema.{CoreEngine, engine_name, User, Bytes, no_bytes, add_bytes}
use over_vpn.Accounting.{
  CursorState, DeltaComputation, TrafficError, compute_traffic_delta, checked_byte_sum,
  parse_nonnegative_int64,
}

pub data CounterScope : Type 0 where
  user inbound outbound : CounterScope

pub record TrafficCounter : Type 0 where
  pub engine : CoreEngine
  pub scope : CounterScope
  pub key : Text
  pub uplink_bytes : Text
  pub downlink_bytes : Text

pub record ParsedCounter : Type 0 where
  pub stats_key : Text
  pub engine : CoreEngine
  pub upload_bytes : ℤ
  pub download_bytes : ℤ

pub record TrafficCursor : Type 0 where
  pub stats_key : Text
  pub engine : CoreEngine
  pub user_id : Text
  pub state : CursorState
  pub last_sample_hash : Text
  pub observed_at : ℕ

pub record TrafficDelta : Type 0 where
  pub user_id : Text
  pub upload_bytes : ℤ
  pub download_bytes : ℤ
  pub observed_at : ℕ
  pub aggregated_at : Option ℕ
  pub generation : ℕ
  pub sample_key : Text

-- The tables that the collector touches; a cursor stands under its key.
pub record Tables : Type 0 where
  pub users : List User
  pub cursors : List (Text × TrafficCursor)
  pub ledger : List TrafficDelta

pub data CollectError : Type 0 where
  accounting : TrafficError → CollectError
  duplicate_sample_key : CollectError
  lock_lost : CollectError

-- `${statsKey}\0${engine}`
abbrev pub cursor_key : Text → CoreEngine → Text
cursor_key stats_key engine = stats_key ++ 0 ∷ engine_name engine

-- `find` on the rows of a table.
abbrev pub find {ℓ} : {A : Type ℓ} → (A → Bool) → List A → Option A
find p [] = none
find p (x ∷ xs) = if p x then some x else find p xs

abbrev pub is_none {ℓ} : {A : Type ℓ} → Option A → Bool
is_none o = not (is_some o)

-- The users that the snapshot names and that are not deleted, by their id.
unfoldable pub user_by_id : List User → Text → Option User
user_by_id users id = find (λ u. text_eq u.id id && is_none u.deleted_at) users

-- The variables of the loop over the counters.
pub record Tally : Type 0 where
  pub cursors : List (Text × TrafficCursor)
  pub ledger : List TrafficDelta
  pub user_deltas : List (Text × Bytes)
  pub upload_delta : ℤ
  pub download_delta : ℤ
  pub baseline_users : ℕ
  pub reset_counters : ℕ
  pub stale_samples : ℕ
  pub touched_users : List Text

-- `Set.add`
abbrev pub add_to_set : Text → List Text → List Text
add_to_set x xs = if any (text_eq x) xs then xs else xs ++ x ∷ []

abbrev pub cursor_state : Option TrafficCursor → Option CursorState
cursor_state none = none
cursor_state (some c) = some c.state

abbrev pub is_stale : Option TrafficCursor → ℕ → Bool
is_stale none captured_at = false
is_stale (some c) captured_at = leb captured_at c.observed_at

abbrev pub lift {ℓ} : {A : Type ℓ} → Result TrafficError A → Result CollectError A
lift (ok a) = ok a
lift (throw e) = throw (accounting e)

abbrev pub bytes_or_none : Option Bytes → Bytes
bytes_or_none none = no_bytes
bytes_or_none (some b) = b

abbrev pub delta_bytes : DeltaComputation → Bytes
delta_bytes r = record { upload = r.upload_delta; download = r.download_delta }

-- The row that a sample adds to the ledger.
abbrev pub ledger_row : Text → ℕ → DeltaComputation → TrafficDelta
ledger_row user_id captured_at r = record {
  user_id = user_id;
  upload_bytes = r.upload_delta;
  download_bytes = r.download_delta;
  observed_at = captured_at;
  aggregated_at = none;
  generation = r.generation;
  sample_key = r.sample_key;
}

-- The sample keys of the ledger are unique, and `create` throws on a second row of one key.
unfoldable pub create_delta :
    TrafficDelta → List TrafficDelta → Result CollectError (List TrafficDelta)
create_delta row ledger =
    if any (λ d. text_eq d.sample_key row.sample_key) ledger
    then throw duplicate_sample_key
    else ok (ledger ++ row ∷ [])

-- The sums of the loop with a delta in them, beside the ledger that has its row.
abbrev pub add_delta : Text → DeltaComputation → List TrafficDelta → Tally → Tally
add_delta user_id r ledger t = record t {
  ledger = ledger;
  user_deltas =
      put user_id (add_bytes (bytes_or_none (get user_id t.user_deltas)) (delta_bytes r))
        t.user_deltas;
  upload_delta = t.upload_delta +ℤ r.upload_delta;
  download_delta = t.download_delta +ℤ r.download_delta;
}

abbrev pub is_positive : DeltaComputation → Bool
is_positive r = ltb_ℤ (pos 0) r.upload_delta || ltb_ℤ (pos 0) r.download_delta

-- What is charged where a delta is positive.
unfoldable pub charge : Text → ℕ → DeltaComputation → Tally → Result CollectError Tally
unfolding create_delta
charge user_id captured_at r t =
    if is_positive r
    then (create_delta (ledger_row user_id captured_at r) t.ledger >>= λ ledger.
        ok (add_delta user_id r ledger t))
    else ok t

abbrev pub upsert_cursor : ParsedCounter → User → ℕ → DeltaComputation → Tally → Tally
upsert_cursor counter u captured_at r t = record t {
  cursors =
      put (cursor_key counter.stats_key counter.engine)
        (record {
          stats_key = counter.stats_key;
          engine = counter.engine;
          user_id = u.id;
          state = record {
            last_upload_bytes = counter.upload_bytes;
            last_download_bytes = counter.download_bytes;
            accounting_epoch = u.accounting_epoch;
            generation = r.generation;
          };
          last_sample_hash = r.sample_key;
          observed_at = captured_at;
        })
        t.cursors;
}

abbrev pub count_sample : DeltaComputation → Tally → Tally
count_sample r t = record t {
  baseline_users = t.baseline_users + (if r.baseline then 1 else 0);
  reset_counters = t.reset_counters + (if r.counter_reset then 1 else 0);
}

module _ (sha256 : Text → Text) (cursor_by_key : List (Text × TrafficCursor))
    (captured_at : ℕ) where
  -- One counter whose user is known. The cursors were read before the loop.
  unfoldable pub account_known : ParsedCounter → User → Tally → Result CollectError Tally
  account_known counter u t =
      let cursor = get (cursor_key counter.stats_key counter.engine) cursor_by_key in
      if is_stale cursor captured_at
      then ok (record t { stale_samples = t.stale_samples + 1 })
      else (lift (
            compute_traffic_delta sha256 (engine_name counter.engine ++ b':' ∷ counter.stats_key)
              u.accounting_epoch counter.upload_bytes counter.download_bytes (cursor_state cursor))
          >>= λ r. charge u.id captured_at r (count_sample r t) >>= λ t'.
              ok (upsert_cursor counter u captured_at r t'))

  unfoldable pub account_counter : List User → ParsedCounter → Tally → Result CollectError Tally
  unfolding account_known
  account_counter users counter t = elim (user_by_id users counter.stats_key) [
    | none ↦ ok t
    | some u ↦
        account_known counter u (record t { touched_users = add_to_set u.id t.touched_users })
  ]

  unfoldable pub account_counters :
      List User → List ParsedCounter → Tally → Result CollectError Tally
  unfolding account_counter
  account_counters users [] t = ok t
  account_counters users (c ∷ cs) t =
      account_counter users c t >>= λ t'. account_counters users cs t'
