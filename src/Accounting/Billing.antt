-- ===== src/Accounting/Billing.antt =====
-- A specification of what polling a core is to measure: the bytes that cross a core which may
-- start again at any time, against what the deltas of `compute_traffic_delta` add up to.
pub mod Exact
use over_vpn.Base.{
  ℕ, ◌+◌, ◌≤◌, ◌≡◌, refl, sym, ap, Bool, true, false, List, [], ◌∷◌, Option, none, some, Text,
  arith, ℤ, pos, ◌≤ℤ◌, ◌+ℤ◌, +ℤ_parts, pos_part, neg_part, int_laws, +ℤ_nonneg, +ℤ_zero, NonNeg, ok,
  throw, Result, Bool-cases, inl, inr, ◌⊎◌, ◌<ℤ◌,
}
use over_vpn.Accounting.{
  CursorState, DeltaComputation, TrafficError, compute_traffic_delta, max_signed_bigint,
  invalid_sample,
}
use over_vpn.Accounting.Delta.{
  IsSample, compute_traffic_delta-NonNeg, compute_traffic_delta-cases, Grows, Restarts,
}

-- What happens to a core: bytes cross it, it starts again with its counters at 0, or it is polled.
pub data Event : Type 0 where
  traffic : (upload download : ℕ) → Event
  restart : Event
  poll : Event

-- A core's counters, the bytes that truly crossed it since the first poll, those among them since
-- the last accepted poll, and what has been billed.
pub record Meter : Type 0 where
  pub upload : ℕ
  pub download : ℕ
  pub true_upload : ℕ
  pub true_download : ℕ
  pub fresh_upload : ℕ
  pub fresh_download : ℕ
  pub cursor : CursorState
  pub billed_upload : ℤ
  pub billed_download : ℤ

-- A counter that has only grown shows what it showed and the fresh bytes.
grow_delta :
    (delta last : ℤ) (now fresh : ℕ)
    → NonNeg last
    → delta +ℤ last ≡ pos now
    → (last +ℤ pos fresh ≡ pos now) ⊎ (now ≤ fresh)
    → delta ≤ℤ pos fresh
grow_delta delta last now fresh p h (inl k) =
    omega (int_laws, ap pos_part h, ap neg_part h, ap pos_part k, ap neg_part k)
grow_delta delta last now fresh p h (inr k) = omega (int_laws, ap pos_part h, ap neg_part h)

pub shift :
    (last : ℤ) (fresh now more : ℕ)
    → last +ℤ pos fresh ≡ pos now
    → last +ℤ pos (fresh + more) ≡ pos (now + more)
shift last fresh now more h = omega (int_laws, ap pos_part h, ap neg_part h)

pub not_below : (last : ℤ) (now fresh : ℕ) → last +ℤ pos fresh ≡ pos now → ¬ (pos now <ℤ last)
not_below last now fresh k h = omega (int_laws, ap pos_part k, ap neg_part k)

module _ (sha256 : Text → Text) (key : Text) (epoch : ℤ) where
  -- The cursor takes the sample's counters, as the collector stores them.
  bill : Meter → Result TrafficError DeltaComputation → Meter
  bill m (throw e) = m
  bill m (ok r) = record m {
    cursor = record {
      last_upload_bytes = pos m.upload;
      last_download_bytes = pos m.download;
      accounting_epoch = epoch;
      generation = r.generation;
    };
    fresh_upload = 0;
    fresh_download = 0;
    billed_upload = m.billed_upload +ℤ r.upload_delta;
    billed_download = m.billed_download +ℤ r.download_delta;
  }

  poll_once : Meter → Meter
  poll_once m =
      bill m
        (compute_traffic_delta sha256 key epoch (pos m.upload) (pos m.download) (some m.cursor))

  unfoldable pub step : Meter → Event → Meter
  unfolding poll_once bill
  step m (traffic u d) = record m {
    upload = m.upload + u;
    download = m.download + d;
    true_upload = m.true_upload + u;
    true_download = m.true_download + d;
    fresh_upload = m.fresh_upload + u;
    fresh_download = m.fresh_download + d;
  }
  step m restart = record m { upload = 0; download = 0 }
  step m poll = poll_once m

  unfoldable pub run : Meter → List Event → Meter
  unfolding step
  run m [] = m
  run m (e ∷ es) = run (step m e) es

  -- The counters hold what the cursor saw and the fresh bytes, or, after a restart, no more than
  -- the fresh bytes.
  record Inv (m : Meter) : Type 0 where
    same_epoch : m.cursor.accounting_epoch ≡ epoch
    last_upload_nonneg : NonNeg m.cursor.last_upload_bytes
    last_download_nonneg : NonNeg m.cursor.last_download_bytes
    upload_billed : pos_part m.billed_upload + m.fresh_upload ≤ m.true_upload
    download_billed : pos_part m.billed_download + m.fresh_download ≤ m.true_download
    upload_nonneg : NonNeg m.billed_upload
    download_nonneg : NonNeg m.billed_download
    counters :
        ((m.cursor.last_upload_bytes +ℤ pos m.fresh_upload ≡ pos m.upload)
          × (m.cursor.last_download_bytes +ℤ pos m.fresh_download ≡ pos m.download))
        ⊎ ((m.upload ≤ m.fresh_upload) × (m.download ≤ m.fresh_download))

  step_delta :
      (m : Meter) (r : DeltaComputation)
      → Inv m
      → Grows m.cursor (pos m.upload) (pos m.download) r
        ⊎ Restarts m.cursor (pos m.upload) (pos m.download) r
      → (r.upload_delta ≤ℤ pos m.fresh_upload) × (r.download_delta ≤ℤ pos m.fresh_download)
  step_delta m r v (inl g) = elim v.counters [
    | inl kept ↦ (
      grow_delta _ _ _ _ v.last_upload_nonneg g.3 (inl kept.0),
      grow_delta _ _ _ _ v.last_download_nonneg g.4 (inl kept.1),
    )
    | inr fell ↦ (
      grow_delta _ _ _ _ v.last_upload_nonneg g.3 (inr fell.0),
      grow_delta _ _ _ _ v.last_download_nonneg g.4 (inr fell.1),
    )
  ]
  step_delta m r v (inr f) = elim v.counters [
    | inl kept ↦ elim f.0 [
      | inl up ↦ absurd (not_below _ _ _ kept.0 up)
      | inr down ↦ absurd (not_below _ _ _ kept.1 down)
    ]
    | inr fell ↦ rw (f.2, f.3) (omega arith)
  ]

  -- One sample, whatever it is answered with.
  poll_once-Inv : (m : Meter) → Inv m → Inv (poll_once m)
  unfolding poll_once bill
  poll_once-Inv m v = go _ refl
    where
      go :
          (res : Result TrafficError DeltaComputation)
          → compute_traffic_delta sha256 key epoch (pos m.upload) (pos m.download) (some m.cursor)
            ≡ res
          → Inv (bill m res)
      go (throw e) h = v
      go (ok r) h =
          let d =
            step_delta m r v
              (compute_traffic_delta-cases sha256 key epoch _ _ m.cursor r h v.same_epoch).1 in
          let n = compute_traffic_delta-NonNeg sha256 key epoch _ _ (some m.cursor) r h in
          let u = +ℤ_nonneg m.billed_upload r.upload_delta v.upload_nonneg n.0 in
          let w = +ℤ_nonneg m.billed_download r.download_delta v.download_nonneg n.1 in
          record {
            same_epoch = refl;
            last_upload_nonneg = refl;
            last_download_nonneg = refl;
            upload_billed = omega arith;
            download_billed = omega arith;
            upload_nonneg = u.0;
            download_nonneg = w.0;
            counters = inl (+ℤ_zero _, +ℤ_zero _);
          }

  step-Inv : (m : Meter) (e : Event) → Inv m → Inv (step m e)
  unfolding step
  step-Inv m (traffic u d) v = record {
    same_epoch = v.same_epoch;
    last_upload_nonneg = v.last_upload_nonneg;
    last_download_nonneg = v.last_download_nonneg;
    upload_billed = omega (arith, v.upload_billed);
    download_billed = omega (arith, v.download_billed);
    upload_nonneg = v.upload_nonneg;
    download_nonneg = v.download_nonneg;
    counters = elim v.counters [
      | inl kept ↦
          inl
            (shift _ m.fresh_upload m.upload u kept.0, shift _ m.fresh_download m.download d kept.1)
      | inr fell ↦ inr (omega arith, omega arith)
    ];
  }
  step-Inv m restart v = record {
    same_epoch = v.same_epoch;
    last_upload_nonneg = v.last_upload_nonneg;
    last_download_nonneg = v.last_download_nonneg;
    upload_billed = v.upload_billed;
    download_billed = v.download_billed;
    upload_nonneg = v.upload_nonneg;
    download_nonneg = v.download_nonneg;
    counters = inr (omega arith, omega arith);
  }
  step-Inv m poll v = poll_once-Inv m v

  run-Inv : (m : Meter) (es : List Event) → Inv m → Inv (run m es)
  unfolding run
  run-Inv m [] v = v
  run-Inv m (e ∷ es) v = run-Inv (step m e) es (step-Inv m e v)

  -- A meter whose cursor was just set, with nothing billed.
  unfoldable pub start : ℕ → ℕ → ℕ → Meter
  start upload download generation = record {
    upload = upload;
    download = download;
    true_upload = 0;
    true_download = 0;
    fresh_upload = 0;
    fresh_download = 0;
    cursor = record {
      last_upload_bytes = pos upload;
      last_download_bytes = pos download;
      accounting_epoch = epoch;
      generation = generation;
    };
    billed_upload = pos 0;
    billed_download = pos 0;
  }

  start-Inv : (upload download generation : ℕ) → Inv (start upload download generation)
  unfolding start
  start-Inv upload download generation = record {
    same_epoch = refl;
    last_upload_nonneg = refl;
    last_download_nonneg = refl;
    upload_billed = omega arith;
    download_billed = omega arith;
    upload_nonneg = refl;
    download_nonneg = refl;
    counters = inl (+ℤ_zero _, +ℤ_zero _);
  }

  -- From any counters of a core, whatever traffic, restarts and polls follow, the bytes billed in
  -- each direction are not negative and never more than the bytes that crossed the core.
  pub billed-le-true :
      (upload download generation : ℕ) (es : List Event)
      → let m = run (start upload download generation) es in
        (pos_part m.billed_upload ≤ m.true_upload)
        × (pos_part m.billed_download ≤ m.true_download)
        × NonNeg m.billed_upload
        × NonNeg m.billed_download
  billed-le-true upload download generation es =
      let v =
        run-Inv (start upload download generation) es (start-Inv upload download generation) in
      (
        omega (arith, v.upload_billed),
        omega (arith, v.download_billed),
        v.upload_nonneg,
        v.download_nonneg,
      )
