-- ===== src/Collector/Transaction.antt =====
-- The transaction of apps/api/src/workers/traffic-collector.service.ts, around the loop over the
-- counters.
use over_vpn.Base.{
  ℕ, Bool, List, [], ◌∷◌, map, none, some, Text, text_eq, if◌then◌else◌, filter, length, ℤ, pos,
  ◌+ℤ◌, Result, ok, throw, ◌>>=◌,
}
use over_vpn.Schema.{User, Bytes}
use over_vpn.Accounting.{checked_byte_sum}
use over_vpn.Collector.{
  ParsedCounter, Tables, CollectError, is_none, user_by_id, Tally, add_to_set, lift,
  account_counters, lock_lost,
}

-- `increment` on the row of one user.
abbrev pub increment_used : Text → Bytes → List User → List User
increment_used id d = map λ u.
    if text_eq u.id id
    then record u {
      used_upload_bytes = u.used_upload_bytes +ℤ d.upload;
      used_download_bytes = u.used_download_bytes +ℤ d.download;
    }
    else u

-- The loop over `userDeltas`: the checks look at the users as they were read.
unfoldable pub apply_deltas :
    List User → List (Text × Bytes) → List User → Result CollectError (List User)
apply_deltas read [] users = ok users
apply_deltas read ((id, d) ∷ rest) users = elim (user_by_id read id) [
  | none ↦ apply_deltas read rest users
  | some u ↦ lift (checked_byte_sum u.used_upload_bytes d.upload) >>= λ _.
      lift (checked_byte_sum u.used_download_bytes d.download) >>= λ _.
      apply_deltas read rest (increment_used id d users)
]

pub record Collected : Type 0 where
  pub collected_users : ℕ
  pub baseline_users : ℕ
  pub reset_counters : ℕ
  pub stale_samples : ℕ
  pub unknown_user_ids : List Text
  pub upload_delta : ℤ
  pub download_delta : ℤ

abbrev pub nothing_collected : Collected
nothing_collected = record {
  collected_users = 0;
  baseline_users = 0;
  reset_counters = 0;
  stale_samples = 0;
  unknown_user_ids = [];
  upload_delta = pos 0;
  download_delta = pos 0;
}

-- `[...new Set(ids)]`
abbrev pub unique_from : List Text → List Text → List Text
unique_from seen [] = seen
unique_from seen (x ∷ xs) = unique_from (add_to_set x seen) xs

abbrev pub start_tally : Tables → Tally
start_tally db = record {
  cursors = db.cursors;
  ledger = db.ledger;
  user_deltas = [];
  upload_delta = pos 0;
  download_delta = pos 0;
  baseline_users = 0;
  reset_counters = 0;
  stale_samples = 0;
  touched_users = [];
}

abbrev pub collected_of : List User → List ParsedCounter → Tally → Collected
collected_of users counters t = record {
  collected_users = length t.touched_users;
  baseline_users = t.baseline_users;
  reset_counters = t.reset_counters;
  stale_samples = t.stale_samples;
  unknown_user_ids =
      filter (λ id. is_none (user_by_id users id))
        (unique_from [] (map (λ (c : ParsedCounter). c.stats_key) counters));
  upload_delta = t.upload_delta;
  download_delta = t.download_delta;
}

-- The transaction. `owned` is what the lock's `verify` answers at its end.
unfoldable pub persist_rows :
    (Text → Text)
    → List ParsedCounter
    → ℕ
    → Bool
    → Tables
    → Result CollectError (Collected × Tables)
unfolding account_counters
persist_rows sha256 counters captured_at owned db =
    account_counters sha256 db.cursors captured_at db.users counters (start_tally db) >>= λ t.
    apply_deltas db.users t.user_deltas db.users >>= λ users.
    if owned
    then ok (
      collected_of db.users counters t,
      record { users = users; cursors = t.cursors; ledger = t.ledger },
    )
    else throw lock_lost

unfoldable pub persist_snapshot :
    (Text → Text)
    → List ParsedCounter
    → ℕ
    → Bool
    → Tables
    → Result CollectError (Collected × Tables)
unfolding persist_rows
persist_snapshot sha256 [] captured_at owned db =
    if owned then ok (nothing_collected, db) else throw lock_lost
persist_snapshot sha256 (c ∷ cs) captured_at owned db =
    persist_rows sha256 (c ∷ cs) captured_at owned db
