-- ===== src/Collector/Tests.antt =====
-- Runs of the collector, and its theorems at concrete inputs.
use over_vpn.Base.{
  ◌≡◌, refl, Bool, true, false, [], ◌∷◌, ◌++◌, none, some, Text, codes, ◌⊎◌, ok, pos, text_eq, get,
  put, ◌+ℤ◌, ◌-ℤ◌,
}
use over_vpn.Schema.{User, active, no_reset, sing_box, add_bytes}
use over_vpn.Accounting.{parse_nonnegative_int64, compute_traffic_delta, checked_byte_sum}
use over_vpn.Collector.{
  ParsedCounter, TrafficCursor, Tables, user, cursor_key, user_by_id, charge, account_counters,
}
use over_vpn.Collector.Transaction.{Collected, persist_snapshot, apply_deltas}
use over_vpn.Collector.Parse.{parse_counters}
use over_vpn.Collector.Run.{Answers, supported, run_once, healthy, acquired}
use over_vpn.Collector.Conservation.{ledger_of}
use over_vpn.Collector.Usage.{used_of}
use over_vpn.Collector.Snapshot.{usage_matches_ledger}
use over_vpn.Collector.Replay.Idle.{persist_snapshot_twice}
use over_vpn.Collector.Run.Commits.{Commits, run_once-Commits, run_once_matches_ledger}

abbrev plain : Text → Text
plain s = s

abbrev never_after : Text → Text → Bool
never_after s t = false

abbrev alice_id : Text
alice_id = codes "5a29e0c0-094a-47d3-bef5-d2f3ea187d3f"

abbrev alice : User
alice = record {
  id = alice_id;
  username = codes "alice";
  status = active;
  status_reason = none;
  expire_at = none;
  data_limit_bytes = none;
  used_upload_bytes = pos 100;
  used_download_bytes = pos 200;
  accounting_epoch = pos 0;
  traffic_reset_at = none;
  reset_strategy = no_reset;
  next_reset_at = none;
  device_limit = none;
  identity_limit_hold_until = none;
  needs_apply = false;
  revision = 1;
  disabled_at = none;
  deleted_at = none;
}

abbrev alice_cursor : TrafficCursor
alice_cursor = record {
  stats_key = alice_id;
  engine = sing_box;
  user_id = alice_id;
  state = record {
    last_upload_bytes = pos 10;
    last_download_bytes = pos 20;
    accounting_epoch = pos 0;
    generation = 0;
  };
  last_sample_hash = [];
  observed_at = 5;
}

abbrev tables : Tables
tables = record {
  users = alice ∷ [];
  cursors = (cursor_key alice_id sing_box, alice_cursor) ∷ [];
  ledger = [];
}

abbrev answers : Answers
answers = record {
  enabled = true;
  lock_acquired = true;
  snapshot = supported 9 (
      record {
        engine = sing_box;
        scope = user;
        key = codes "5A29E0C0-094A-47D3-BEF5-D2F3EA187D3F";
        uplink_bytes = codes "15";
        downlink_bytes = codes "29";
      }
      ∷ []);
  owned_after_snapshot = true;
  owned_in_transaction = true;
  owned_at_end = true;
}

abbrev counter : ParsedCounter
counter = record {
  stats_key = alice_id;
  engine = sing_box;
  upload_bytes = pos 15;
  download_bytes = pos 29;
}

runs :
    (run_once plain never_after answers tables).0 ≡ acquired healthy 1 (some (pos 5)) (some (pos 9))
unfolding run_once parse_counters parse_nonnegative_int64 persist_snapshot charge apply_deltas
    account_counters compute_traffic_delta checked_byte_sum get put user_by_id add_bytes ◌+ℤ◌ ◌-ℤ◌
    text_eq
runs = refl

alice_known : user_by_id tables.users alice_id ≡ some alice
unfolding user_by_id text_eq
alice_known = refl

abbrev alice_after : User
alice_after = record alice { used_upload_bytes = pos 105; used_download_bytes = pos 209 }

abbrev sample_key : Text
sample_key =
    codes "SING_BOX:"
    ++ alice_id
    ++ 0 ∷ codes "0"
    ++ 0 ∷ codes "0"
    ++ 0 ∷ codes "15"
    ++ 0 ∷ codes "29"

abbrev tables_after : Tables
tables_after = record {
  users = alice_after ∷ [];
  cursors =
      (
        cursor_key alice_id sing_box,
        record alice_cursor {
          state = record {
            last_upload_bytes = pos 15;
            last_download_bytes = pos 29;
            accounting_epoch = pos 0;
            generation = 0;
          };
          last_sample_hash = sample_key;
          observed_at = 9;
        },
      )
      ∷ [];
  ledger =
      record {
        user_id = alice_id;
        upload_bytes = pos 5;
        download_bytes = pos 9;
        observed_at = 9;
        aggregated_at = none;
        generation = 0;
        sample_key = sample_key;
      }
      ∷ [];
}

abbrev collected : Collected
collected = record {
  collected_users = 1;
  baseline_users = 0;
  reset_counters = 0;
  stale_samples = 0;
  unknown_user_ids = [];
  upload_delta = pos 5;
  download_delta = pos 9;
}

accounted : persist_snapshot plain (counter ∷ []) 9 true tables ≡ ok (collected, tables_after)
unfolding persist_snapshot charge apply_deltas account_counters compute_traffic_delta
    checked_byte_sum get put user_by_id add_bytes ◌+ℤ◌ ◌-ℤ◌ text_eq
accounted = refl

usage_matches_ledger_example :
    (u' : User) × (user_by_id tables_after.users alice_id ≡ some u')
    × (add_bytes (used_of u') (ledger_of alice_id tables.ledger)
        ≡ add_bytes (used_of alice) (ledger_of alice_id tables_after.ledger))
usage_matches_ledger_example =
    usage_matches_ledger plain (counter ∷ []) 9 true tables tables_after collected alice_id alice
      accounted alice_known

persist_snapshot_twice_example :
    (again : Collected) × (persist_snapshot plain (counter ∷ []) 9 true tables_after
      ≡ ok (again, tables_after))
    × (again.upload_delta ≡ pos 0)
    × (again.download_delta ≡ pos 0)
persist_snapshot_twice_example =
    persist_snapshot_twice plain (counter ∷ []) 9 true tables tables_after collected accounted

run_once-Commits_example :
    ((run_once plain never_after answers tables).1 ≡ tables)
    ⊎ Commits plain never_after answers tables (run_once plain never_after answers tables).1
run_once-Commits_example = run_once-Commits plain never_after answers tables

run_once_matches_ledger_example :
    (u' : User) × (user_by_id (run_once plain never_after answers tables).1.users alice_id
      ≡ some u')
    × (add_bytes (used_of u') (ledger_of alice_id tables.ledger)
        ≡ add_bytes
            (used_of alice)
            (ledger_of alice_id (run_once plain never_after answers tables).1.ledger))
run_once_matches_ledger_example =
    run_once_matches_ledger plain never_after answers tables alice_id alice alice_known
