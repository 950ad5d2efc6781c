-- ===== src/Collector/Snapshot.antt =====
-- The transaction of the collector as a whole.
use over_vpn.Base.{
  ℕ, ◌≡◌, refl, sym, ap, ◌∙◌, Bool, true, List, [], ◌∷◌, some, Text, Result, ok, bind-ok,
  Bool-cases, inl, inr,
}
use over_vpn.Schema.{User, add_bytes, add_bytes_assoc, add_bytes_comm, add_bytes_zero}
use over_vpn.Collector.{ParsedCounter, Tally, Tables, CollectError, user_by_id, account_counters}
use over_vpn.Collector.Transaction.{
  Collected, apply_deltas, persist_rows, persist_snapshot, start_tally, collected_of,
}
use over_vpn.Collector.Conservation.{ledger_of, charged_of, account_counters-Balanced}
use over_vpn.Collector.Usage.{used_of, used_of-credited, credited, apply_deltas_of}

-- A transaction that returned: its loop and its updates returned, and the lock was still held.
pub persist_rows_cases :
    (sha256 : Text → Text) (cs : List ParsedCounter) (captured_at : ℕ) (owned : Bool)
    (db db' : Tables) (out : Collected)
    → persist_rows sha256 cs captured_at owned db ≡ ok (out, db')
    → (t : Tally) × (us : List User) × (account_counters sha256 db.cursors captured_at db.users cs
          (start_tally db)
        ≡ ok t)
      × (apply_deltas db.users t.user_deltas db.users ≡ ok us)
      × (owned ≡ true)
      × (out ≡ collected_of db.users cs t)
      × (db' ≡ record { users = us; cursors = t.cursors; ledger = t.ledger })
unfolding persist_rows
persist_rows_cases sha256 cs captured_at owned db db' out h =
    let (t, looped, rest) =
      bind-ok (account_counters sha256 db.cursors captured_at db.users cs (start_tally db)) _ h in
    let (us, updated, last) = bind-ok (apply_deltas db.users t.user_deltas db.users) _ rest in
    elim (Bool-cases owned) [
      | inl held ↦
          let e : ◌≡◌ {A = Result CollectError (Collected × Tables)}
              (ok (
                collected_of db.users cs t,
                record { users = us; cursors = t.cursors; ledger = t.ledger },
              ))
              (ok (out, db')) =
            rw held at last in
          (t, us, looped, updated, held, cc, cc)
      | inr lost ↦ absurd (cc (rw lost at last))
    ]

-- For a known user, the usage and the ledger go up by the same bytes in both directions: what is
-- billed and what is recorded cannot come apart, however many counters and engines the snapshot
-- holds for the user.
pub usage_matches_ledger :
    (sha256 : Text → Text) (cs : List ParsedCounter) (captured_at : ℕ) (owned : Bool)
    (db db' : Tables) (out : Collected) (id : Text) (u : User)
    → persist_snapshot sha256 cs captured_at owned db ≡ ok (out, db')
    → user_by_id db.users id ≡ some u
    → (u' : User) × (user_by_id db'.users id ≡ some u')
      × (add_bytes (used_of u') (ledger_of id db.ledger)
          ≡ add_bytes (used_of u) (ledger_of id db'.ledger))
unfolding persist_snapshot
usage_matches_ledger sha256 [] captured_at owned db db' out id u h known = elim (Bool-cases owned) [
  | inl held ↦ let e : db ≡ db' = cc (rw held at h) in (u, rw (← e) known, rw e refl)
  | inr lost ↦ absurd (cc (rw lost at h))
]
usage_matches_ledger sha256 (c ∷ cs) captured_at owned db db' out id u h known =
    let (t, us, looped, updated, _, _, e) =
      persist_rows_cases sha256 (c ∷ cs) captured_at owned db db' out h in
    let balance =
      account_counters-Balanced id db.ledger sha256 db.cursors captured_at db.users (c ∷ cs)
        (start_tally db) t looped (unfold charged_of in sym (add_bytes_zero _)) in
    let row = apply_deltas_of id db.users u known t.user_deltas db.users us u updated known in
    rw e (
      credited (charged_of id t.user_deltas) u,
      row,
      ap (λ x. add_bytes x (ledger_of id db.ledger)) (used_of-credited _ u)
          ∙ add_bytes_assoc _ _ _
          ∙ ap (add_bytes (used_of u)) (add_bytes_comm _ _ ∙ sym balance),
    )

-- Nothing is committed without the lock.
pub persist_snapshot_owned :
    (sha256 : Text → Text) (cs : List ParsedCounter) (captured_at : ℕ) (owned : Bool)
    (db db' : Tables) (out : Collected)
    → persist_snapshot sha256 cs captured_at owned db ≡ ok (out, db')
    → owned ≡ true
unfolding persist_snapshot
persist_snapshot_owned sha256 [] captured_at owned db db' out h = elim (Bool-cases owned) [
  | inl held ↦ held
  | inr lost ↦ absurd (cc (rw lost at h))
]
persist_snapshot_owned sha256 (c ∷ cs) captured_at owned db db' out h =
    let (_, _, _, _, held, _, _) =
      persist_rows_cases sha256 (c ∷ cs) captured_at owned db db' out h in
    held
