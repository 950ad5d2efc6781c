-- ===== src/Collector/Conservation.antt =====
-- What the ledger records for a user is what the user's usage goes up by.
use over_vpn.Base.{
  ℕ, ◌≡◌, refl, sym, ap, ◌∙◌, Bool, List, [], ◌∷◌, ◌++◌, Text, text_eq, text_eq_iff, if◌then◌else◌,
  get, put, ok, Bool-cases, inl, inr,
}
use mathlib.Core.Path.{subst}
use over_vpn.Schema.{
  User, Bytes, no_bytes, add_bytes, add_bytes_assoc, add_bytes_right_comm, add_bytes_zero,
  zero_add_bytes,
}
use over_vpn.Accounting.{DeltaComputation}
use over_vpn.Collector.Steps.{charge_cases, account_known_cases, account_counters_keeps}
use over_vpn.Collector.{
  add_delta, TrafficDelta, TrafficCursor, ParsedCounter, Tally, bytes_or_none, delta_bytes,
  ledger_row, charge, count_sample, account_known, account_counters,
}

abbrev pub row_bytes : TrafficDelta → Bytes
row_bytes d = record { upload = d.upload_bytes; download = d.download_bytes }

-- All that the ledger records for a user.
unfoldable pub ledger_of : Text → List TrafficDelta → Bytes
ledger_of id [] = no_bytes
ledger_of id (d ∷ ds) =
    if text_eq d.user_id id then add_bytes (row_bytes d) (ledger_of id ds) else ledger_of id ds

-- All that a map of deltas charges a user.
unfoldable pub charged_of : Text → List (Text × Bytes) → Bytes
charged_of id [] = no_bytes
charged_of id ((k, b) ∷ m) = if text_eq k id then add_bytes b (charged_of id m) else charged_of id m

abbrev when : Bool → Bytes → Bytes
when test b = if test then b else no_bytes

ledger_of-concat :
    (id : Text) (l : List TrafficDelta) (d : TrafficDelta)
    → ledger_of id (l ++ d ∷ [])
      ≡ add_bytes (ledger_of id l) (when (text_eq d.user_id id) (row_bytes d))
unfolding ledger_of
ledger_of-concat id [] d = elim (Bool-cases (text_eq d.user_id id)) [
  | inl same ↦ rw same (add_bytes_zero _ ∙ sym (zero_add_bytes _))
  | inr other ↦ rw other (sym (zero_add_bytes _))
]
ledger_of-concat id (x ∷ l) d = elim (Bool-cases (text_eq x.user_id id)) [
  | inl same ↦
      rw same (ap (add_bytes (row_bytes x)) (ledger_of-concat id l d) ∙ sym (add_bytes_assoc _ _ _))
  | inr other ↦ rw other (ledger_of-concat id l d)
]

-- `existing + b` under a key charges `b` more to that key.
charged_of-put :
    (id k : Text) (b v : Bytes) (m : List (Text × Bytes))
    → v ≡ add_bytes (bytes_or_none (get k m)) b
    → charged_of id (put k v m) ≡ add_bytes (charged_of id m) (when (text_eq k id) b)
unfolding charged_of get put
charged_of-put id k b v [] h = elim (Bool-cases (text_eq k id)) [
  | inl same ↦ rw same (add_bytes_zero _ ∙ h)
  | inr other ↦ rw other (sym (zero_add_bytes _))
]
charged_of-put id k b v ((j, c) ∷ m) h = elim (Bool-cases (text_eq j k)) [
  | inl hit ↦
      let e : text_eq j id ≡ text_eq k id = ap (λ x. text_eq x id) ((text_eq_iff j k).0 hit) in
      let value : v ≡ add_bytes c b = rw hit at h in
      elim (Bool-cases (text_eq k id)) [
        | inl same ↦ rw (hit, e, same, value) (add_bytes_right_comm c b _)
        | inr other ↦ rw (hit, e, other) (sym (add_bytes_zero _))
      ]
  | inr miss ↦
      let value : v ≡ add_bytes (bytes_or_none (get k m)) b = rw miss at h in
      let rest = charged_of-put id k b v m value in
      elim (Bool-cases (text_eq j id)) [
        | inl same ↦ rw (miss, same) (ap (add_bytes c) rest ∙ sym (add_bytes_assoc _ _ _))
        | inr other ↦ rw (miss, other) rest
      ]
]

module _ (id : Text) (base : List TrafficDelta) where
  -- The ledger has grown by what the map charges.
  abbrev pub Balanced : Tally → Type 0
  Balanced t = ledger_of id t.ledger ≡ add_bytes (ledger_of id base) (charged_of id t.user_deltas)

  add_delta-Balanced :
      (user_id : Text) (captured_at : ℕ) (r : DeltaComputation) (t : Tally)
      → Balanced t
      → Balanced (add_delta user_id r (t.ledger ++ ledger_row user_id captured_at r ∷ []) t)
  add_delta-Balanced user_id captured_at r t b =
      ledger_of-concat id t.ledger (ledger_row user_id captured_at r)
      ∙ ap (λ x. add_bytes x (when (text_eq user_id id) (delta_bytes r))) b
      ∙ add_bytes_assoc _ _ _
      ∙ ap (add_bytes (ledger_of id base))
          (sym (charged_of-put id user_id (delta_bytes r) _ t.user_deltas refl))

  charge-Balanced :
      (user_id : Text) (captured_at : ℕ) (r : DeltaComputation) (t t' : Tally)
      → charge user_id captured_at r t ≡ ok t'
      → Balanced t
      → Balanced t'
  charge-Balanced user_id captured_at r t t' h b =
      elim (charge_cases user_id captured_at r t t' h) [
        | inl same ↦ subst Balanced (sym same) b
        | inr more ↦ subst Balanced (sym more) (add_delta-Balanced user_id captured_at r t b)
      ]

  module _ (sha256 : Text → Text) (cursor_by_key : List (Text × TrafficCursor))
      (captured_at : ℕ) where
    account_known-Balanced :
        (c : ParsedCounter) (u : User) (t t' : Tally)
        → account_known sha256 cursor_by_key captured_at c u t ≡ ok t'
        → Balanced t
        → Balanced t'
    account_known-Balanced c u t t' h b =
        elim (account_known_cases sha256 cursor_by_key captured_at c u t t' h) [
          | inl (_, e) ↦ subst Balanced (sym e) b
          | inr (r, s, _, stored, e) ↦
              subst Balanced (sym e)
                (charge-Balanced u.id captured_at r (count_sample r t) s stored b)
        ]

    pub account_counters-Balanced :
        (users : List User) (cs : List ParsedCounter) (t t' : Tally)
        → account_counters sha256 cursor_by_key captured_at users cs t ≡ ok t'
        → Balanced t
        → Balanced t'
    account_counters-Balanced users =
        account_counters_keeps sha256 cursor_by_key captured_at Balanced users
          λ c u t t' _ h b. account_known-Balanced c u _ t' h b
