-- ===== src/Collector/Replay.antt =====
-- A snapshot that is delivered twice is accounted once.
pub mod Idle
use over_vpn.Base.{
  ℕ, ◌+◌, ◌≡◌, refl, sym, ap, ◌∙◌, Bool, true, false, ◌&&◌, List, [], ◌∷◌, Option, none, some, Text,
  text_eq, text_eq_iff, text_eq_refl, arith, if◌then◌else◌, Result, ok, throw, ◌>>=◌, bind-ok,
  Bool-cases, Option-cases, inl, inr, ◌⊎◌, get, put, get-put, leb, All, ℤ, pos,
}
use mathlib.Core.Path.{subst}
use over_vpn.Schema.{User, Bytes}
use over_vpn.Accounting.{DeltaComputation, checked_byte_sum}
use over_vpn.Collector.{
  ParsedCounter, TrafficCursor, Tally, Tables, CollectError, user_by_id, find, is_none, lift,
  account_known, account_counter, account_counters, charge, add_delta, count_sample, upsert_cursor,
  cursor_key, is_stale, add_to_set,
}
use over_vpn.Collector.Transaction.{
  Collected, increment_used, apply_deltas, persist_rows, persist_snapshot, start_tally,
  collected_of, nothing_collected,
}
use over_vpn.Collector.Steps.{charge_cases, account_known_cases}
use over_vpn.Collector.Snapshot.{persist_rows_cases}

module _ (captured_at : ℕ) where
  -- The cursor under a key has seen the snapshot's date, or a later one.
  abbrev pub Seen : Text → List (Text × TrafficCursor) → Type 0
  Seen key cursors = is_stale (get key cursors) captured_at ≡ true

  put-Seen :
      (key k : Text) (v : TrafficCursor) (m : List (Text × TrafficCursor))
      → v.observed_at ≡ captured_at
      → Seen key m
      → Seen key (put k v m)
  put-Seen key k v m e h = elim (Bool-cases (text_eq k key)) [
    | inl same ↦ rw (get-put, same) (ground arith)
    | inr other ↦ rw (get-put, other) h
  ]

  put-Seen_self :
      (k : Text) (v : TrafficCursor) (m : List (Text × TrafficCursor))
      → v.observed_at ≡ captured_at
      → Seen k (put k v m)
  put-Seen_self k v m e = rw (get-put, text_eq_refl k) (ground arith)

  charge-cursors :
      (id : Text) (r : DeltaComputation) (t t' : Tally)
      → charge id captured_at r t ≡ ok t'
      → t'.cursors ≡ t.cursors
  charge-cursors id r t t' h = elim (charge_cases id captured_at r t t' h) [
    | inl e ↦ ap (λ (x : Tally). x.cursors) e
    | inr e ↦ ap (λ (x : Tally). x.cursors) e
  ]

  module _ (sha256 : Text → Text) (read : List (Text × TrafficCursor)) where
    account_known-Seen :
        (c : ParsedCounter) (u : User) (t t' : Tally) (key : Text)
        → account_known sha256 read captured_at c u t ≡ ok t'
        → Seen key t.cursors
        → Seen key t'.cursors
    account_known-Seen c u t t' key h s =
        elim (account_known_cases sha256 read captured_at c u t t' h) [
          | inl (_, e) ↦ rw e s
          | inr (r, m, _, stored, e) ↦
              let same : m.cursors ≡ t.cursors =
                charge-cursors u.id r (count_sample r t) m stored in
              rw e (put-Seen key _ _ m.cursors refl (rw same s))
        ]

    -- What the loop's cursors have seen, beside those that were read.
    abbrev pub Covers : Tally → Type 0
    Covers t = (key : Text) → Seen key read → Seen key t.cursors

    account_known-Seen_self :
        (c : ParsedCounter) (u : User) (t t' : Tally)
        → account_known sha256 read captured_at c u t ≡ ok t'
        → Covers t
        → Seen (cursor_key c.stats_key c.engine) t'.cursors
    account_known-Seen_self c u t t' h covers =
        elim (account_known_cases sha256 read captured_at c u t t' h) [
          | inl (old, e) ↦ rw e (covers _ old)
          | inr (r, m, _, _, e) ↦ rw e (put-Seen_self _ _ m.cursors refl)
        ]

    -- A counter of an unknown user, or one whose cursor has seen the snapshot.
    abbrev pub Done : List User → List (Text × TrafficCursor) → ParsedCounter → Type 0
    Done users cursors c =
        (user_by_id users c.stats_key ≡ none) ⊎ Seen (cursor_key c.stats_key c.engine) cursors

    account_counter-Seen :
        (users : List User) (c : ParsedCounter) (t t' : Tally)
        → account_counter sha256 read captured_at users c t ≡ ok t'
        → ((key : Text) → Seen key t.cursors → Seen key t'.cursors)
          × (Covers t → Done users t'.cursors c)
    unfolding account_counter
    account_counter-Seen users c t t' h = elim (Option-cases (user_by_id users c.stats_key)) [
      | inl unknown ↦
          let e : t ≡ t' = cc (rw (unknown, account_counter) at h) in
          (λ key s. subst (λ (x : Tally). Seen key x.cursors) e s, λ _. inl unknown)
      | inr (u, known) ↦
          let h' = rw (known, account_counter) at h in
          (
            λ key s. account_known-Seen c u _ t' key h' s,
            λ covers. inr (account_known-Seen_self c u _ t' h' covers),
          )
    ]

    account_counters-Seen :
        (users : List User) (cs : List ParsedCounter) (t t' : Tally)
        → account_counters sha256 read captured_at users cs t ≡ ok t'
        → (key : Text) → Seen key t.cursors
        → Seen key t'.cursors
    unfolding account_counters
    account_counters-Seen users [] t t' h key s =
        let e : t ≡ t' = cc in subst (λ (x : Tally). Seen key x.cursors) e s
    account_counters-Seen users (c ∷ cs) t t' h key s =
        let (m, first, rest) = bind-ok (account_counter sha256 read captured_at users c t) _ h in
        account_counters-Seen users cs m t' rest key
          ((account_counter-Seen users c t m first).0 key s)

    pub account_counters-Done :
        (users : List User) (cs : List ParsedCounter) (t t' : Tally)
        → account_counters sha256 read captured_at users cs t ≡ ok t'
        → Covers t
        → All (Done users t'.cursors) cs
    unfolding account_counters
    account_counters-Done users [] t t' h covers = tt
    account_counters-Done users (c ∷ cs) t t' h covers =
        let (m, first, rest) = bind-ok (account_counter sha256 read captured_at users c t) _ h in
        let (keeps, does) = account_counter-Seen users c t m first in
        (
          elim (does covers) [
            | inl unknown ↦ inl unknown
            | inr seen ↦ inr (account_counters-Seen users cs m t' rest _ seen)
          ],
          account_counters-Done users cs m t' rest (λ key s. keeps key (covers key s)),
        )
