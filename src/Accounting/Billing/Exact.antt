-- ===== src/Accounting/Billing/Exact.antt =====
-- The deltas of a core that never starts again add up to all the bytes.
use over_vpn.Base.{
  ℕ, ◌≡◌, refl, ap, List, [], ◌∷◌, some, Text, ℤ, pos, ◌+ℤ◌, pos_part, neg_part, int_laws, NonNeg,
  ok, throw, Result, ◌⊎◌, inl, inr, All, ◌≢◌, +ℤ_zero, ◌∙◌,
}
use over_vpn.Accounting.{DeltaComputation, TrafficError, compute_traffic_delta, computed}
use over_vpn.Accounting.Delta.{
  IsSample, compute_traffic_delta-cases, Grows, Restarts, accepted_of_IsSample,
}
use over_vpn.Accounting.Billing.{
  Event, traffic, restart, poll, Meter, bill, poll_once, step, run, start, not_below, shift,
}

module _ (sha256 : Text → Text) (key : Text) (epoch : ℤ) where
  record Inv (m : Meter) : Type 0 where
    same_epoch : m.cursor.accounting_epoch ≡ epoch
    upload_billed : m.billed_upload +ℤ pos m.fresh_upload ≡ pos m.true_upload
    download_billed : m.billed_download +ℤ pos m.fresh_download ≡ pos m.true_download
    upload_kept : m.cursor.last_upload_bytes +ℤ pos m.fresh_upload ≡ pos m.upload
    download_kept : m.cursor.last_download_bytes +ℤ pos m.fresh_download ≡ pos m.download

  -- The delta is what was fresh.
  delta_fresh :
      (delta last : ℤ) (now fresh : ℕ)
      → delta +ℤ last ≡ pos now
      → last +ℤ pos fresh ≡ pos now
      → delta ≡ pos fresh
  delta_fresh delta last now fresh h k =
      omega (int_laws, ap pos_part h, ap neg_part h, ap pos_part k, ap neg_part k)

  accepted-Inv :
      (m : Meter) (r : DeltaComputation)
      → Inv m
      → Grows m.cursor (pos m.upload) (pos m.download) r
        ⊎ Restarts m.cursor (pos m.upload) (pos m.download) r
      → Inv (bill sha256 key epoch m (ok r))
        × ((bill sha256 key epoch m (ok r)).billed_upload ≡ pos m.true_upload)
        × ((bill sha256 key epoch m (ok r)).billed_download ≡ pos m.true_download)
  unfolding bill
  accepted-Inv m r v (inl g) =
      let u : r.upload_delta ≡ pos m.fresh_upload = delta_fresh _ _ _ _ g.3 v.upload_kept in
      let d : r.download_delta ≡ pos m.fresh_download = delta_fresh _ _ _ _ g.4 v.download_kept in
      let bu : m.billed_upload +ℤ r.upload_delta ≡ pos m.true_upload = rw u v.upload_billed in
      let bd : m.billed_download +ℤ r.download_delta ≡ pos m.true_download =
        rw d v.download_billed in
      (
        record {
          same_epoch = refl;
          upload_billed = +ℤ_zero _ ∙ bu;
          download_billed = +ℤ_zero _ ∙ bd;
          upload_kept = +ℤ_zero _;
          download_kept = +ℤ_zero _;
        },
        bu,
        bd,
      )
  accepted-Inv m r v (inr f) = elim f.0 [
    | inl up ↦ absurd (not_below _ _ _ v.upload_kept up)
    | inr down ↦ absurd (not_below _ _ _ v.download_kept down)
  ]

  poll_once-Inv : (m : Meter) → Inv m → Inv (poll_once sha256 key epoch m)
  unfolding poll_once
  poll_once-Inv m v = go _ refl
    where
      go :
          (res : Result TrafficError DeltaComputation)
          → compute_traffic_delta sha256 key epoch (pos m.upload) (pos m.download) (some m.cursor)
            ≡ res
          → Inv (bill sha256 key epoch m res)
      go (throw e) h = unfold bill in v
      go (ok r) h =
          (accepted-Inv m r v
            (compute_traffic_delta-cases sha256 key epoch _ _ m.cursor r h v.same_epoch).1).0

  step-Inv : (m : Meter) (e : Event) → e ≢ restart → Inv m → Inv (step sha256 key epoch m e)
  unfolding step
  step-Inv m (traffic u d) n v = record {
    same_epoch = v.same_epoch;
    upload_billed = shift _ m.fresh_upload m.true_upload u v.upload_billed;
    download_billed = shift _ m.fresh_download m.true_download d v.download_billed;
    upload_kept = shift _ m.fresh_upload m.upload u v.upload_kept;
    download_kept = shift _ m.fresh_download m.download d v.download_kept;
  }
  step-Inv m restart n v = absurd (n refl)
  step-Inv m poll n v = poll_once-Inv m v

  run-Inv :
      (m : Meter) (es : List Event)
      → All (λ e. e ≢ restart) es
      → Inv m
      → Inv (run sha256 key epoch m es)
  unfolding run
  run-Inv m [] n v = v
  run-Inv m (e ∷ es) n v = run-Inv (step sha256 key epoch m e) es n.1 (step-Inv m e n.0 v)

  start-Inv :
      (upload download generation : ℕ) → Inv (start sha256 key epoch upload download generation)
  unfolding start
  start-Inv upload download generation = record {
    same_epoch = refl;
    upload_billed = +ℤ_zero _;
    download_billed = +ℤ_zero _;
    upload_kept = +ℤ_zero _;
    download_kept = +ℤ_zero _;
  }

  poll_exact :
      (m : Meter)
      → Inv m
      → IsSample epoch (pos m.upload) (pos m.download)
      → ((step sha256 key epoch m poll).billed_upload
          ≡ pos (step sha256 key epoch m poll).true_upload)
        × ((step sha256 key epoch m poll).billed_download
            ≡ pos (step sha256 key epoch m poll).true_download)
  unfolding step poll_once bill
  poll_exact m v s =
      let h = accepted_of_IsSample sha256 key epoch _ _ (some m.cursor) s in
      let e =
        accepted-Inv m (computed sha256 key epoch (pos m.upload) (pos m.download) (some m.cursor)) v
          (compute_traffic_delta-cases sha256 key epoch _ _ m.cursor _ h v.same_epoch).1 in
      rw h (e.1, e.2)

  -- For an epoch that is not negative and events without a restart of the core, a poll with
  -- counters that fit leaves the billed bytes equal to the bytes that crossed the core.
  pub billed-eq-true :
      (upload download generation : ℕ) (es : List Event)
      → NonNeg epoch
      → All (λ e. e ≢ restart) es
      → let m = run sha256 key epoch (start sha256 key epoch upload download generation) es in
        IsSample epoch (pos m.upload) (pos m.download)
        → let n = step sha256 key epoch m poll in
          (n.billed_upload ≡ pos n.true_upload) × (n.billed_download ≡ pos n.true_download)
  billed-eq-true upload download generation es p quiet fits =
      poll_exact _ (run-Inv _ es quiet (start-Inv upload download generation)) fits
