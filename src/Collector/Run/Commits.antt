-- ===== src/Collector/Run/Commits.antt =====
-- When a run of the collector changes the tables.
use over_vpn.Base.{
  ℕ, ◌≡◌, refl, Bool, true, List, some, Text, ◌⊎◌, inl, inr, Result, ok, throw, Bool-cases,
}
use over_vpn.Schema.{User, add_bytes}
use over_vpn.Collector.{TrafficCounter, Tables, CollectError, user_by_id}
use over_vpn.Collector.Transaction.{Collected, persist_snapshot}
use over_vpn.Collector.Parse.{ParsedCounters, parse_counters}
use over_vpn.Collector.Snapshot.{persist_snapshot_owned, usage_matches_ledger}
use over_vpn.Collector.Conservation.{ledger_of}
use over_vpn.Collector.Usage.{used_of}
use over_vpn.Collector.Run.{
  Answers, Snapshot, supported, unsupported, conclude, collect_snapshot, run_once,
}

-- The transaction returned `db'`, on the counters of the snapshot.
pub record Commits (sha256 : Text → Text) (is_after : Text → Text → Bool) (a : Answers)
    (db db' : Tables) : Type 0 where
  pub captured_at : ℕ
  pub counters : List TrafficCounter
  pub out : Collected
  pub enabled : a.enabled ≡ true
  pub locked : a.lock_acquired ≡ true
  pub still_owned : a.owned_after_snapshot ≡ true
  pub owned_at_commit : a.owned_in_transaction ≡ true
  pub polled : a.snapshot ≡ supported captured_at counters
  pub returned :
      persist_snapshot sha256
        (parse_counters is_after counters).counters
        captured_at
        a.owned_in_transaction
        db
      ≡ ok (out, db')

module _ (sha256 : Text → Text) (is_after : Text → Text → Bool) (a : Answers) (db : Tables) where
  conclude_cases :
      (parsed : ParsedCounters) (res : Result CollectError (Collected × Tables))
      → ((conclude a.owned_at_end parsed db res).1 ≡ db)
        ⊎ ((out : Collected) × (res ≡ ok (out, (conclude a.owned_at_end parsed db res).1)))
  unfolding conclude
  conclude_cases parsed (throw e) = inl refl
  conclude_cases parsed (ok (out, db')) = inr (out, refl)

  snapshot_cases :
      (s : Snapshot)
      → a.snapshot ≡ s
      → a.enabled ≡ true
      → a.lock_acquired ≡ true
      → a.owned_after_snapshot ≡ true
      → ((collect_snapshot sha256 is_after a s db).1 ≡ db)
        ⊎ Commits sha256 is_after a db (collect_snapshot sha256 is_after a s db).1
  unfolding collect_snapshot
  snapshot_cases (unsupported captured_at) e on locked owned = inl refl
  snapshot_cases (supported captured_at counters) e on locked owned =
      elim (conclude_cases (parse_counters is_after counters) (
        persist_snapshot sha256 (parse_counters is_after counters).counters captured_at
          a.owned_in_transaction db)) [
            | inl same ↦ inl same
            | inr (out, ran) ↦
                let held =
                  persist_snapshot_owned sha256 _ captured_at a.owned_in_transaction db _ out ran in
                inr (record {
                  captured_at = captured_at;
                  counters = counters;
                  out = out;
                  enabled = on;
                  locked = locked;
                  still_owned = owned;
                  owned_at_commit = held;
                  polled = e;
                  returned = ran;
                })
          ]

  -- A run leaves every table as it was, or it is enabled, holds the lock from a supported snapshot
  -- to the end of the transaction, and has the tables of that transaction.
  pub run_once-Commits :
      ((run_once sha256 is_after a db).1 ≡ db)
      ⊎ Commits sha256 is_after a db (run_once sha256 is_after a db).1
  unfolding run_once
  run_once-Commits = elim (Bool-cases a.enabled) [
    | inr off ↦ inl (simp off)
    | inl on ↦ elim (Bool-cases a.lock_acquired) [
      | inr taken ↦ inl (simp (on, taken))
      | inl locked ↦ elim (Bool-cases a.owned_after_snapshot) [
        | inr lost ↦ inl (simp (on, locked, lost))
        | inl owned ↦ simp (on, locked, owned) (snapshot_cases a.snapshot refl on locked owned)
      ]
    ]
  ]

  -- On every path of a run of the traffic collector, failures included, a user who is there and
  -- not deleted stays so, and their usage grows by exactly the bytes that the ledger gains for
  -- them.
  pub run_once_matches_ledger :
      (id : Text) (u : User)
      → user_by_id db.users id ≡ some u
      → (u' : User) × (user_by_id (run_once sha256 is_after a db).1.users id ≡ some u')
        × (add_bytes (used_of u') (ledger_of id db.ledger)
            ≡ add_bytes (used_of u) (ledger_of id (run_once sha256 is_after a db).1.ledger))
  run_once_matches_ledger id u known = elim run_once-Commits [
    | inl same ↦ rw same (u, known, refl)
    | inr c ↦
        usage_matches_ledger sha256 _ c.captured_at a.owned_in_transaction db _ c.out id u
          c.returned known
  ]
