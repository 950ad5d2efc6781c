-- ===== src/Accounting/Delta.antt =====
-- What one call of `compute_traffic_delta` answers.
use over_vpn.Base.{
  ◌+◌, ◌≡◌, refl, ◌↔◌, true, false, ◌||◌, Option, none, some, Text, arith, ℤ, pos, ◌≤ℤ◌, ◌<ℤ◌, ◌+ℤ◌,
  ◌⊎◌, ◌-ℤ◌, NonNeg, eqb_ℤ, eqb_ℤ_iff, sub-add, NonNeg-of_add, ok, throw, ltb_ℤ, Bool-cases, inl,
  inr,
}
use over_vpn.Accounting.{
  CursorState, DeltaComputation, compute_traffic_delta, computed, max_signed_bigint, invalid_sample,
  is_invalid_sample, epoch_changed,
}

-- What a sample must be: nothing is negative, and the counters fit signed 64-bit storage.
abbrev pub IsSample : ℤ → ℤ → ℤ → Type 0
IsSample epoch upload download =
    NonNeg epoch
    × NonNeg upload
    × NonNeg download
    × (upload ≤ℤ max_signed_bigint)
    × (download ≤ℤ max_signed_bigint)

-- Both counters lie at or above the cursor's: the deltas are the differences.
abbrev pub Grows : CursorState → ℤ → ℤ → DeltaComputation → Type 0
Grows c upload download r =
    (c.last_upload_bytes ≤ℤ upload)
    × (c.last_download_bytes ≤ℤ download)
    × (r.counter_reset ≡ false)
    × (r.upload_delta +ℤ c.last_upload_bytes ≡ upload)
    × (r.download_delta +ℤ c.last_download_bytes ≡ download)
    × (r.generation ≡ c.generation)

-- A counter has fallen: the deltas are the new counters, whole.
abbrev pub Restarts : CursorState → ℤ → ℤ → DeltaComputation → Type 0
Restarts c upload download r =
    ((upload <ℤ c.last_upload_bytes) ⊎ (download <ℤ c.last_download_bytes))
    × (r.counter_reset ≡ true)
    × (r.upload_delta ≡ upload)
    × (r.download_delta ≡ download)
    × (r.generation ≡ c.generation + 1)

IsSample-of_valid :
    (epoch upload download : ℤ)
    → is_invalid_sample epoch upload download ≡ false
    → IsSample epoch upload download
IsSample-of_valid epoch upload download h = ground arith

is_invalid_of_IsSample :
    (epoch upload download : ℤ)
    → IsSample epoch upload download
    → is_invalid_sample epoch upload download ≡ false
is_invalid_of_IsSample epoch upload download h = ground arith

module _ (sha256 : Text → Text) (key : Text) (epoch upload download : ℤ) where
  -- A sample is refused exactly when its epoch or a counter is negative, or a counter is over the
  -- largest signed 64-bit integer.
  pub compute_traffic_delta-throws_iff :
      (cursor : Option CursorState)
      → (compute_traffic_delta sha256 key epoch upload download cursor ≡ throw invalid_sample)
        ↔ ¬ IsSample epoch upload download
  unfolding compute_traffic_delta
  compute_traffic_delta-throws_iff cursor = (
    λ e s. cc (e, is_invalid_of_IsSample epoch upload download s),
    λ h. elim (Bool-cases (is_invalid_sample epoch upload download)) [
      | inl bad ↦ rw bad
      | inr good ↦ absurd (h (IsSample-of_valid epoch upload download good))
    ],
  )

  pub accepted :
      (cursor : Option CursorState) (r : DeltaComputation)
      → compute_traffic_delta sha256 key epoch upload download cursor ≡ ok r
      → IsSample epoch upload download
  unfolding compute_traffic_delta
  accepted cursor r h = elim (Bool-cases (is_invalid_sample epoch upload download)) [
    | inl bad ↦ absurd (cc (h, bad))
    | inr good ↦ IsSample-of_valid epoch upload download good
  ]

  pub accepted_of_IsSample :
      (cursor : Option CursorState)
      → IsSample epoch upload download
      → compute_traffic_delta sha256 key epoch upload download cursor
        ≡ ok (computed sha256 key epoch upload download cursor)
  unfolding compute_traffic_delta computed
  accepted_of_IsSample cursor s = rw (is_invalid_of_IsSample epoch upload download s)

  pub result_of_accepted :
      (cursor : Option CursorState) (r : DeltaComputation)
      → compute_traffic_delta sha256 key epoch upload download cursor ≡ ok r
      → r ≡ computed sha256 key epoch upload download cursor
  result_of_accepted cursor r h = cc (h, accepted_of_IsSample cursor (accepted cursor r h))

  -- An accepted sample that is the first of its key or of its epoch is a baseline without a reset
  -- and with no bytes in either direction.
  pub compute_traffic_delta-baseline :
      (cursor : Option CursorState) (r : DeltaComputation)
      → compute_traffic_delta sha256 key epoch upload download cursor ≡ ok r
      → (cursor ≡ none) ⊎ (epoch_changed cursor epoch ≡ true)
      → (r.baseline ≡ true)
        × (r.counter_reset ≡ false)
        × (r.upload_delta ≡ pos 0)
        × (r.download_delta ≡ pos 0)
  compute_traffic_delta-baseline none r h k =
      let e = result_of_accepted none r h in unfold computed in ground arith
  compute_traffic_delta-baseline (some c) r h k =
      let e = result_of_accepted (some c) r h in unfold computed in ground arith

  grown :
      (c : CursorState)
      → eqb_ℤ c.accounting_epoch epoch ≡ true
      → ltb_ℤ upload c.last_upload_bytes ≡ false
      → ltb_ℤ download c.last_download_bytes ≡ false
      → let r = computed sha256 key epoch upload download (some c) in
        (r.baseline ≡ false)
        × (r.counter_reset ≡ false)
        × (r.upload_delta ≡ upload -ℤ c.last_upload_bytes)
        × (r.download_delta ≡ download -ℤ c.last_download_bytes)
        × (r.generation ≡ c.generation)
  unfolding computed
  grown c same up down = ground arith

  fallen :
      (c : CursorState)
      → eqb_ℤ c.accounting_epoch epoch ≡ true
      → (ltb_ℤ upload c.last_upload_bytes || ltb_ℤ download c.last_download_bytes) ≡ true
      → let r = computed sha256 key epoch upload download (some c) in
        (r.baseline ≡ false)
        × (r.counter_reset ≡ true)
        × (r.upload_delta ≡ upload)
        × (r.download_delta ≡ download)
        × (r.generation ≡ c.generation + 1)
  unfolding computed
  fallen c same down = ground arith

  -- An accepted sample with a cursor of the same epoch is no baseline, and it either has grown in
  -- both directions, with the differences as deltas and the generation kept, or has fallen in one,
  -- with the whole counters as deltas, the reset flag and the next generation.
  pub compute_traffic_delta-cases :
      (c : CursorState) (r : DeltaComputation)
      → compute_traffic_delta sha256 key epoch upload download (some c) ≡ ok r
      → c.accounting_epoch ≡ epoch
      → (r.baseline ≡ false) × (Grows c upload download r ⊎ Restarts c upload download r)
  compute_traffic_delta-cases c r h same =
      let e = result_of_accepted (some c) r h in
      let here : eqb_ℤ c.accounting_epoch epoch ≡ true = (eqb_ℤ_iff _ _).1 same in
      elim (Bool-cases (ltb_ℤ upload c.last_upload_bytes || ltb_ℤ download c.last_download_bytes)) [
        | inl down ↦
            let f = fallen c here down in
            let side : (upload <ℤ c.last_upload_bytes) ⊎ (download <ℤ c.last_download_bytes) =
              ground arith in
            rw e (f.0, inr (side, f.1, f.2, f.3, f.4))
        | inr up ↦
            let u : ltb_ℤ upload c.last_upload_bytes ≡ false = ground arith in
            let d : ltb_ℤ download c.last_download_bytes ≡ false = ground arith in
            let g = grown c here u d in
            rw e (
              g.0,
              inl (
                ground arith,
                ground arith,
                g.1,
                rw g.2 (sub-add _ _),
                rw g.3 (sub-add _ _),
                g.4,
              ),
            )
      ]

  -- What an accepted sample adds is never negative.
  pub compute_traffic_delta-NonNeg :
      (cursor : Option CursorState) (r : DeltaComputation)
      → compute_traffic_delta sha256 key epoch upload download cursor ≡ ok r
      → NonNeg r.upload_delta × NonNeg r.download_delta
  compute_traffic_delta-NonNeg none r h =
      let b = compute_traffic_delta-baseline none r h (inl refl) in ground arith
  compute_traffic_delta-NonNeg (some c) r h = elim (Bool-cases (epoch_changed (some c) epoch)) [
    | inl other ↦
        let b = compute_traffic_delta-baseline (some c) r h (inr other) in
        rw (b.2, b.3) (refl, refl)
    | inr same ↦
        let s = accepted (some c) r h in
        let here : eqb_ℤ c.accounting_epoch epoch ≡ true = ground arith in
        elim (compute_traffic_delta-cases c r h ((eqb_ℤ_iff _ _).0 here)).1 [
          | inl g ↦ (NonNeg-of_add _ _ _ g.0 g.3, NonNeg-of_add _ _ _ g.1 g.4)
          | inr f ↦ rw (f.2, f.3) (s.1, s.2)
        ]
  ]
