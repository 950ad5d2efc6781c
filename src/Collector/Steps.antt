-- ===== src/Collector/Steps.antt =====
-- What one round of the collector's loop does, case by case.
use over_vpn.Base.{
  ℕ, ◌+◌, ◌≡◌, true, List, [], ◌∷◌, ◌++◌, some, Text, text_eq, arith, get, Result, ok, throw, ◌>>=◌,
  bind-ok, Bool-cases, Option-cases, inl, inr, ◌⊎◌, any,
}
use mathlib.Core.Path.{subst}
use over_vpn.Schema.{User, engine_name}
use over_vpn.Accounting.{DeltaComputation, TrafficError, compute_traffic_delta}
use over_vpn.Collector.{
  TrafficDelta, TrafficCursor, ParsedCounter, Tally, CollectError, user_by_id, ledger_row,
  create_delta, charge, add_delta, is_positive, upsert_cursor, count_sample, account_known,
  account_counter, account_counters, lift, cursor_key, is_stale, cursor_state, add_to_set,
}

-- A sample without positive bytes leaves the sums alone; one with some adds its row to the ledger
-- and its bytes to the user.
pub charge_cases :
    (user_id : Text) (captured_at : ℕ) (r : DeltaComputation) (t t' : Tally)
    → charge user_id captured_at r t ≡ ok t'
    → (t' ≡ t) ⊎ (t' ≡ add_delta user_id r (t.ledger ++ ledger_row user_id captured_at r ∷ []) t)
unfolding charge create_delta
charge_cases user_id captured_at r t t' h = elim (Bool-cases (is_positive r)) [
  | inl positive ↦
      elim (Bool-cases (any (λ (d : TrafficDelta). text_eq d.sample_key r.sample_key) t.ledger)) [
        | inl taken ↦ absurd (cc (rw (positive, taken) at h))
        | inr new ↦ inr (ground (arith, (rw (positive, new) at h)))
      ]
  | inr nothing ↦ inl (ground (arith, (rw nothing at h)))
]

lift-eq-ok {ℓ} : {A : Type ℓ} (m : Result TrafficError A) {a : A} → lift m ≡ ok a → m ≡ ok a
lift-eq-ok (ok b) h = ground arith
lift-eq-ok (throw e) h = cc

module _ (sha256 : Text → Text) (cursor_by_key : List (Text × TrafficCursor))
    (captured_at : ℕ) where
  abbrev sample : ParsedCounter → User → Result TrafficError DeltaComputation
  sample c u =
      compute_traffic_delta sha256 (engine_name c.engine ++ b':' ∷ c.stats_key) u.accounting_epoch
        c.upload_bytes c.download_bytes
        (cursor_state (get (cursor_key c.stats_key c.engine) cursor_by_key))

  abbrev charged : ParsedCounter → User → Tally → DeltaComputation → Result CollectError Tally
  charged c u t r =
      charge u.id captured_at r (count_sample r t) >>= λ s. ok (upsert_cursor c u captured_at r s)

  -- A stale sample is only counted; any other is computed, charged and stored in the cursor.
  pub account_known_cases :
      (c : ParsedCounter) (u : User) (t t' : Tally)
      → account_known sha256 cursor_by_key captured_at c u t ≡ ok t'
      → ((is_stale (get (cursor_key c.stats_key c.engine) cursor_by_key) captured_at ≡ true)
          × (t' ≡ record t { stale_samples = t.stale_samples + 1 }))
        ⊎ ((r : DeltaComputation) × (s : Tally) × (compute_traffic_delta sha256
                (engine_name c.engine ++ b':' ∷ c.stats_key)
                u.accounting_epoch
                c.upload_bytes
                c.download_bytes
                (cursor_state (get (cursor_key c.stats_key c.engine) cursor_by_key))
              ≡ ok r)
            × (charge u.id captured_at r (count_sample r t) ≡ ok s)
            × (t' ≡ upsert_cursor c u captured_at r s))
  unfolding account_known
  account_known_cases c u t t' h =
      elim (Bool-cases
        (is_stale (get (cursor_key c.stats_key c.engine) cursor_by_key) captured_at)) [
          | inl old ↦ inl (old, ground (arith, (rw old at h)))
          | inr new ↦
              let (r, ran, rest) = bind-ok (lift (sample c u)) (charged c u t) (rw new at h) in
              let (s, stored, e) = bind-ok (charge u.id captured_at r (count_sample r t)) _ rest in
              inr (r, s, lift-eq-ok (sample c u) ran, stored, cc)
        ]

  -- What each counter of a known user keeps, the loop keeps.
  pub account_counters_keeps {ℓ} :
      (P : Tally → Type ℓ) (users : List User)
      → ((c : ParsedCounter) (u : User) (t t' : Tally)
          → user_by_id users c.stats_key ≡ some u
          → account_known sha256 cursor_by_key captured_at c u
              (record t { touched_users = add_to_set u.id t.touched_users })
            ≡ ok t'
          → P t
          → P t')
      → (cs : List ParsedCounter) (t t' : Tally)
      → account_counters sha256 cursor_by_key captured_at users cs t ≡ ok t'
      → P t
      → P t'
  unfolding account_counters account_counter
  account_counters_keeps P users keep [] t t' h p = let e : t ≡ t' = cc in subst P e p
  account_counters_keeps P users keep (c ∷ cs) t t' h p =
      let (s, first, rest) =
        bind-ok (account_counter sha256 cursor_by_key captured_at users c t) _ h in
      account_counters_keeps P users keep cs s t' rest
        (elim (Option-cases (user_by_id users c.stats_key)) [
          | inl unknown ↦ let e : t ≡ s = cc (rw (unknown, account_counter) at first) in subst P e p
          | inr (u, known) ↦ keep c u t s known (rw (known, account_counter) at first) p
        ])
