-- ===== src/DailyUsage/Tests.antt =====
-- The aggregation at concrete inputs.
use over_vpn.Base.{
  ℕ, ◌+◌, ◌≤◌, Bool, true, false, List, [], ◌∷◌, length, none, some, Text, codes, pos, ok, ◌≡◌,
  refl, arith,
}
use over_vpn.Schema.{Bytes, no_bytes, add_bytes}
use over_vpn.DailyUsage.{
  LedgerRow, UsageRow, Tables, Settings, Aggregated, aggregate, pending, utc_day,
}
use over_vpn.DailyUsage.Conservation.{falls_on, usage_of, deltas_of, when, total, total-aggregate}
use over_vpn.DailyUsage.Drained.{Ready, runs, drained}
use over_vpn.DailyUsage.Drained.Room.{Small}

abbrev bytes : ℕ → ℕ → Bytes
bytes up down = record { upload = pos up; download = pos down }

abbrev delta : ℕ → ℕ → LedgerRow
delta id at = record {
  id = id;
  user_id = codes "u";
  bytes = bytes 3 4;
  observed_at = at;
  aggregated_at = none;
}

abbrev settings : Settings
settings = record { batch_size = 2; retention_days = 1 }

abbrev two : Tables
two = record { ledger = delta 1 5 ∷ delta 2 90000000 ∷ []; usage = [] }

abbrev outcome : Aggregated
outcome = record { consumed = 2; groups = 2; pruned = 1 }

abbrev stored : Tables
stored = record {
  ledger = record (delta 2 90000000) { aggregated_at = some 90000000 } ∷ [];
  usage =
      record { user_id = codes "u"; day = 0; bytes = bytes 3 4 }
      ∷ record { user_id = codes "u"; day = 86400000; bytes = bytes 3 4 }
      ∷ [];
}

aggregates : aggregate settings 90000000 true two ≡ ok (outcome, stored)
unfolding aggregate over_vpn.DailyUsage.group_deltas pending over_vpn.DailyUsage.add_to_group
    over_vpn.DailyUsage.checked_bytes over_vpn.Accounting.checked_byte_sum over_vpn.Base.◌+ℤ◌
    over_vpn.Base.text_eq utc_day over_vpn.Calendar.utc over_vpn.Calendar.Walk.before
    over_vpn.Calendar.civil over_vpn.Calendar.Walk.walk over_vpn.DailyUsage.upsert_all
    over_vpn.DailyUsage.upsert over_vpn.DailyUsage.mark over_vpn.DailyUsage.prune
aggregates = refl

total-aggregate_example : total (codes "u") 0 stored ≡ total (codes "u") 0 two
total-aggregate_example =
    total-aggregate (codes "u") 0 settings 90000000 true two stored outcome
      (((λ e. ground arith), tt), (tt, tt)) aggregates

two_fit :
    (a b : Bool)
    → Small (
        add_bytes no_bytes
          (add_bytes (when a (bytes 3 4)) (add_bytes (when b (bytes 3 4)) no_bytes)))
unfolding over_vpn.Schema.add_bytes over_vpn.Base.◌+ℤ◌
two_fit true true = (omega arith, omega arith)
two_fit true false = (omega arith, omega arith)
two_fit false true = (omega arith, omega arith)
two_fit false false = (omega arith, omega arith)

two-Ready : Ready two
unfolding pending usage_of deltas_of add_bytes
two-Ready = record {
  apart = (((λ e. ground arith), tt), (tt, tt));
  stored = tt;
  waiting = (ground arith, (ground arith, tt));
  fits = λ u d. two_fit (falls_on u d (delta 1 5)) (falls_on u d (delta 2 90000000));
}

drained_example :
    (pending (runs settings (7 ∷ 8 ∷ []) two).ledger ≡ [])
    × ((u : Text) (d : ℕ) → usage_of u d (runs settings (7 ∷ 8 ∷ []) two).usage ≡ total u d two)
unfolding pending
drained_example = drained settings (7 ∷ 8 ∷ []) two (omega arith) two-Ready (omega arith)
