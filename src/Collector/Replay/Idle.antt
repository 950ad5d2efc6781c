-- ===== src/Collector/Replay/Idle.antt =====
-- A snapshot that every cursor has seen changes no row, and so a second delivery of one.
use over_vpn.Base.{
  ℕ, ◌+◌, ◌≡◌, refl, ap, ◌∙◌, Bool, true, ◌&&◌, List, [], ◌∷◌, none, Text, text_eq, ok, bind-ok,
  Bool-cases, Option-cases, inl, inr, All, pos,
}
use over_vpn.Schema.{User, Bytes}
use over_vpn.Accounting.{checked_byte_sum}
use over_vpn.Collector.{
  ParsedCounter, TrafficCursor, Tally, Tables, user_by_id, is_none, lift, account_known,
  account_counter, account_counters, add_to_set,
}
use over_vpn.Collector.Transaction.{
  Collected, increment_used, apply_deltas, persist_rows, persist_snapshot, start_tally,
  collected_of, nothing_collected,
}
use over_vpn.Collector.Snapshot.{persist_rows_cases}
use over_vpn.Collector.Replay.{Done, account_counters-Done}

user_by_id-increment_none :
    (j id : Text) (d : Bytes) (us : List User)
    → user_by_id us j ≡ none
    → user_by_id (increment_used id d us) j ≡ none
unfolding user_by_id
user_by_id-increment_none j id d [] h = refl
user_by_id-increment_none j id d (u ∷ us) h =
    elim (Bool-cases (text_eq u.id j && is_none u.deleted_at)) [
      | inl here ↦ absurd (cc (rw here at h))
      | inr later ↦
          let rest = user_by_id-increment_none j id d us (rw later at h) in
          elim (Bool-cases (text_eq u.id id)) [
            | inl hit ↦ rw (hit, later) rest
            | inr miss ↦ rw (miss, later) rest
          ]
    ]

-- The updates make no user known.
apply_deltas-none :
    (read : List User) (m : List (Text × Bytes)) (us us' : List User) (j : Text)
    → apply_deltas read m us ≡ ok us'
    → user_by_id us j ≡ none
    → user_by_id us' j ≡ none
unfolding apply_deltas
apply_deltas-none read [] us us' j h n = let e : us ≡ us' = cc in rw (← e) n
apply_deltas-none read ((id, d) ∷ m) us us' j h n = elim (Option-cases (user_by_id read id)) [
  | inl unknown ↦ apply_deltas-none read m us us' j (rw (unknown, apply_deltas) at h) n
  | inr (u, found) ↦
      let (_, _, rest) =
        bind-ok (lift (checked_byte_sum u.used_upload_bytes d.upload)) _
          (rw (found, apply_deltas) at h) in
      let (_, _, rest') =
        bind-ok (lift (checked_byte_sum u.used_download_bytes d.download)) _ rest in
      apply_deltas-none read m (increment_used id d us) us' j rest'
        (user_by_id-increment_none j id d us n)
]

-- The loop has changed nothing but its counts of samples and users.
abbrev Unchanged : Tally → Tally → Type 0
Unchanged t t' =
    (t'.cursors ≡ t.cursors)
    × (t'.ledger ≡ t.ledger)
    × (t'.user_deltas ≡ t.user_deltas)
    × (t'.upload_delta ≡ t.upload_delta)
    × (t'.download_delta ≡ t.download_delta)

module _ (sha256 : Text → Text) (captured_at : ℕ) (cursors : List (Text × TrafficCursor))
    (users : List User) where
  idle_counter :
      (c : ParsedCounter) (t : Tally)
      → Done captured_at sha256 cursors users cursors c
      → (t' : Tally) × (account_counter sha256 cursors captured_at users c t ≡ ok t')
        × Unchanged t t'
  unfolding account_counter account_known
  idle_counter c t (inl unknown) =
      (t, rw (unknown, account_counter), (refl, refl, refl, refl, refl))
  idle_counter c t (inr seen) = elim (Option-cases (user_by_id users c.stats_key)) [
    | inl unknown ↦ (t, rw (unknown, account_counter), (refl, refl, refl, refl, refl))
    | inr (u, known) ↦ (
      record t {
        touched_users = add_to_set u.id t.touched_users;
        stale_samples = t.stale_samples + 1;
      },
      rw (known, account_counter) (rw seen),
      (refl, refl, refl, refl, refl),
    )
  ]

  idle_counters :
      (cs : List ParsedCounter) (t : Tally)
      → All (Done captured_at sha256 cursors users cursors) cs
      → (t' : Tally) × (account_counters sha256 cursors captured_at users cs t ≡ ok t')
        × Unchanged t t'
  unfolding account_counters
  idle_counters [] t h = (t, refl, (refl, refl, refl, refl, refl))
  idle_counters (c ∷ cs) t (d, h) =
      let (m, first, u) = idle_counter c t d in
      let (t', rest, v) = idle_counters cs m h in
      (t', rw first rest, (v.0 ∙ u.0, v.1 ∙ u.1, v.2 ∙ u.2, v.3 ∙ u.3, v.4 ∙ u.4))

-- A snapshot all of whose counters are of unknown users, or have been seen by their cursors, is
-- accepted and changes no row.
idle_snapshot :
    (sha256 : Text → Text) (cs : List ParsedCounter) (captured_at : ℕ) (db : Tables)
    → All (Done captured_at sha256 db.cursors db.users db.cursors) cs
    → (out : Collected) × (persist_rows sha256 cs captured_at true db ≡ ok (out, db))
      × (out.upload_delta ≡ pos 0)
      × (out.download_delta ≡ pos 0)
unfolding persist_rows apply_deltas
idle_snapshot sha256 cs captured_at db h =
    let (t, ran, u) = idle_counters sha256 captured_at db.cursors db.users cs (start_tally db) h in
    (collected_of db.users cs t, finish t ran u, u.3, u.4)
  where
    finish :
        (t : Tally)
        → account_counters sha256 db.cursors captured_at db.users cs (start_tally db) ≡ ok t
        → Unchanged (start_tally db) t
        → persist_rows sha256 cs captured_at true db ≡ ok (collected_of db.users cs t, db)
    finish t ran u =
        let updated : apply_deltas db.users t.user_deltas db.users ≡ ok db.users =
          ap (λ m. apply_deltas db.users m db.users) u.2 in
        rw ran (
          rw updated (λ i. ok (
            collected_of db.users cs t,
            record { users = db.users; cursors = u.0 i; ledger = u.1 i },
          )))

-- The counters of an accepted snapshot are done in the tables that it leaves.
Done-after :
    (sha256 : Text → Text) (captured_at : ℕ) (db db' : Tables) (m : List (Text × Bytes))
    → apply_deltas db.users m db.users ≡ ok db'.users
    → (cs : List ParsedCounter) → All (Done captured_at sha256 db.cursors db.users db'.cursors) cs
    → All (Done captured_at sha256 db'.cursors db'.users db'.cursors) cs
Done-after sha256 captured_at db db' m updated [] h = tt
Done-after sha256 captured_at db db' m updated (c ∷ cs) (d, h) = (
  elim d [
    | inl unknown ↦
        inl (apply_deltas-none db.users m db.users db'.users c.stats_key updated unknown)
    | inr seen ↦ inr seen
  ],
  Done-after sha256 captured_at db db' m updated cs h,
)

rows_twice :
    (sha256 : Text → Text) (cs : List ParsedCounter) (captured_at : ℕ) (owned : Bool)
    (db db' : Tables) (out : Collected)
    → persist_rows sha256 cs captured_at owned db ≡ ok (out, db')
    → (again : Collected) × (persist_rows sha256 cs captured_at true db' ≡ ok (again, db'))
      × (again.upload_delta ≡ pos 0)
      × (again.download_delta ≡ pos 0)
rows_twice sha256 cs captured_at owned db db' out h =
    let (t, us, looped, updated, _, _, e) =
      persist_rows_cases sha256 cs captured_at owned db db' out h in
    let processed =
      account_counters-Done captured_at sha256 db.cursors db.users cs (start_tally db) t looped
        (λ key s. s) in
    idle_snapshot sha256 cs captured_at db'
      (Done-after sha256 captured_at db db' t.user_deltas (rw e updated) cs (rw e processed))

-- Where a transaction with a snapshot returned, the same snapshot at the same instant returns
-- again under the lock, changes no table, and adds no bytes.
pub persist_snapshot_twice :
    (sha256 : Text → Text) (cs : List ParsedCounter) (captured_at : ℕ) (owned : Bool)
    (db db' : Tables) (out : Collected)
    → persist_snapshot sha256 cs captured_at owned db ≡ ok (out, db')
    → (again : Collected) × (persist_snapshot sha256 cs captured_at true db' ≡ ok (again, db'))
      × (again.upload_delta ≡ pos 0)
      × (again.download_delta ≡ pos 0)
unfolding persist_snapshot
persist_snapshot_twice sha256 [] captured_at owned db db' out h =
    (nothing_collected, refl, refl, refl)
persist_snapshot_twice sha256 (c ∷ cs) captured_at owned db db' out h =
    rows_twice sha256 (c ∷ cs) captured_at owned db db' out h
