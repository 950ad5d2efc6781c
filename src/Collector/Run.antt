-- ===== src/Collector/Run.antt =====
-- `runOnce` of the traffic collector: the lock, the snapshot, the transaction and the verdict.
pub mod Commits
use over_vpn.Base.{
  ℕ, suc, ◌+◌, ◌*◌, ◌/◌, ◌-◌, ◌<◌, ◌≡◌, refl, Bool, true, false, not, ◌&&◌, ◌||◌, List, [], ◌∷◌,
  Option, none, some, Text, ◌⊎◌, inl, inr, if◌then◌else◌, ltb, leb, ◌==◌, ℤ, pos, negsuc, sub_ℕ,
  Result, ok, throw, length, arith, Bool-cases, is_some,
}
use over_vpn.Collector.{TrafficCounter, ParsedCounter, Tables, CollectError}
use over_vpn.Collector.Transaction.{Collected, persist_snapshot}
use over_vpn.Collector.Parse.{ParsedCounters, parse_counters}

pub data WorkerStatus : Type 0 where
  healthy degraded failed : WorkerStatus

pub data CollectionResult : Type 0 where
  not_acquired : CollectionResult
  acquired :
      (status : WorkerStatus) (collected_users : ℕ) (upload_delta download_delta : Option ℤ)
      → CollectionResult

pub data Snapshot : Type 0 where
  unsupported : (captured_at : ℕ) → Snapshot
  supported : (captured_at : ℕ) (counters : List TrafficCounter) → Snapshot

pub record Throughput : Type 0 where
  pub upload : ℤ
  pub download : ℤ

-- `(delta * 1000n) / elapsed`, which rounds towards 0.
abbrev pub per_second : ℤ → ℕ → ℤ
per_second (pos n) elapsed = pos (n * 1000 / elapsed)
per_second (negsuc n) elapsed = sub_ℕ 0 ((n + 1) * 1000 / elapsed)

-- `calculateThroughput`: the previous snapshot's date is `none` where the details hold no text.
unfoldable pub calculate_throughput : Option ℕ → ℕ → ℤ → ℤ → Option Throughput
calculate_throughput none captured_at upload download = none
calculate_throughput (some previous) captured_at upload download =
    if leb captured_at previous
    then none
    else some (record {
      upload = per_second upload (captured_at - previous);
      download = per_second download (captured_at - previous);
    })

-- What the platform answers in the course of one run.
pub record Answers : Type 0 where
  pub enabled : Bool
  pub lock_acquired : Bool
  pub snapshot : Snapshot
  pub owned_after_snapshot : Bool
  pub owned_in_transaction : Bool
  pub owned_at_end : Bool

abbrev failure : CollectionResult
failure = acquired failed 0 none none

-- `tryWithLock` asserts the ownership once more when the operation has returned.
abbrev at_end : Bool → CollectionResult → CollectionResult
at_end owned r = if owned then r else failure

abbrev pub is_degraded : ParsedCounters → Collected → Bool
is_degraded parsed out = ltb 0 parsed.invalid_counters || ltb 0 (length out.unknown_user_ids)

-- The verdict on a transaction that returned or threw.
unfoldable pub conclude :
    Bool
    → ParsedCounters
    → Tables
    → Result CollectError (Collected × Tables)
    → CollectionResult × Tables
conclude owned parsed db (throw e) = (failure, db)
conclude owned parsed db (ok (out, db')) = (
  at_end owned (
      acquired (if is_degraded parsed out then degraded else healthy) out.collected_users
        (some out.upload_delta) (some out.download_delta)),
  db',
)

module _ (sha256 : Text → Text) (is_after : Text → Text → Bool) where
  unfoldable pub collect_snapshot : Answers → Snapshot → Tables → CollectionResult × Tables
  unfolding conclude
  collect_snapshot a (unsupported captured_at) db =
      (at_end a.owned_at_end (acquired degraded 0 none none), db)
  collect_snapshot a (supported captured_at counters) db =
      let parsed = parse_counters is_after counters in
      conclude a.owned_at_end parsed db
        (persist_snapshot sha256 parsed.counters captured_at a.owned_in_transaction db)

  unfoldable pub run_once : Answers → Tables → CollectionResult × Tables
  unfolding collect_snapshot
  run_once a db =
      if not a.enabled
      then (not_acquired, db)
      else if not a.lock_acquired
      then (not_acquired, db)
      else if not a.owned_after_snapshot
      then (failure, db)
      else collect_snapshot a a.snapshot db
