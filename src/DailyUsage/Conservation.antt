-- ===== src/DailyUsage/Conservation.antt =====
-- What the daily rows hold for a user and a day, with what waits in the ledger.
use mathlib.Core.Path.{subst}
use over_vpn.Base.{
  ℕ, zero, suc, ◌-◌, ◌*◌, Bool, true, false, ◌&&◌, List, [], ◌∷◌, take, Text, text_eq, text_eq_iff,
  if◌then◌else◌, ◌==◌, ==_iff, ◌≡◌, arith, ap, ◌∙◌, sym, Bool-cases, inl, inr, Result, ok, throw,
  bind-ok,
}
use over_vpn.Schema.{
  Bytes, no_bytes, add_bytes, add_bytes_assoc, add_bytes_comm, add_bytes_right_comm, add_bytes_zero,
  zero_add_bytes,
}
use over_vpn.Accounting.{checked_byte_sum}
use over_vpn.DailyUsage.{
  LedgerRow, UsageRow, Tables, AggregateError, Settings, Aggregated, utc_day, checked_bytes, is_of,
  add_to_group, group_deltas, increment, upsert, upsert_all, pending, ids_of, mark, prune,
  aggregate,
}
use over_vpn.DailyUsage.Batch.{
  drop, Distinct, pending-prune, pending-mark, Distinct-prune, Distinct-mark,
}

abbrev pub when : Bool → Bytes → Bytes
when b x = if b then x else no_bytes

abbrev success : {A : Type 0} → A → Result AggregateError A
success x = ok x

returned : {A : Type 0} (x y : A) → success x ≡ success y → x ≡ y
returned x y e = cc

committed_tables :
    (verified : Bool) (x : Aggregated) (u : Tables) (r : Aggregated) (t' : Tables)
    → (if verified
        then success {A = Aggregated × Tables} (x, u)
        else throw AggregateError.lock_lost)
      ≡ ok (r, t')
    → (t'.ledger ≡ u.ledger) × (t'.usage ≡ u.usage)
committed_tables true x u r t' e =
    let same = returned (x, u) (r, t') e in
    (ap (λ y. y.1.ledger) (sym same), ap (λ y. y.1.usage) (sym same))
committed_tables false x u r t' e = cc

-- What a transaction that commits has done.
pub record Committed (s : Settings) (t t' : Tables) : Type 0 where
  pub groups : List UsageRow
  pub grouped : group_deltas (take s.batch_size (pending t.ledger)) [] ≡ ok groups
  pub stored : upsert_all groups t.usage ≡ ok t'.usage
  pub left : pending t'.ledger ≡ drop s.batch_size (pending t.ledger)
  pub apart : Distinct t'.ledger

pub aggregate_cases :
    (s : Settings) (now : ℕ) (verified : Bool) (t t' : Tables) (r : Aggregated)
    → Distinct t.ledger
    → aggregate s now verified t ≡ ok (r, t')
    → Committed s t t'
unfolding aggregate
aggregate_cases s now verified t t' r d h =
    let cutoff = now - s.retention_days * 86400000 in
    let marked = mark (ids_of (take s.batch_size (pending t.ledger))) now t.ledger in
    let (groups, e, h2) = bind-ok (group_deltas (take s.batch_size (pending t.ledger)) []) _ h in
    let (usage, f, h3) = bind-ok (upsert_all groups t.usage) _ h2 in
    let (ledger', usage') =
      committed_tables verified _ (record { ledger = prune cutoff marked; usage = usage }) r t'
        h3 in
    record {
      groups = groups;
      grouped = e;
      stored = f ∙ ap success (sym usage');
      left =
          ap pending ledger'
          ∙ pending-prune cutoff marked
          ∙ pending-mark s.batch_size now t.ledger d;
      apart = subst Distinct (sym ledger') (
          Distinct-prune cutoff marked
            (Distinct-mark (ids_of (take s.batch_size (pending t.ledger))) now t.ledger d));
    }

module _ (user : Text) (day : ℕ) where
  -- The bytes of the rows of a user and a day.
  unfoldable pub usage_of : List UsageRow → Bytes
  usage_of [] = no_bytes
  usage_of (r ∷ rs) = add_bytes (when (is_of user day r) r.bytes) (usage_of rs)

  abbrev pub falls_on : LedgerRow → Bool
  falls_on d = text_eq d.user_id user && (utc_day d.observed_at == day)

  -- The bytes of deltas of a user and a day.
  unfoldable pub deltas_of : List LedgerRow → Bytes
  deltas_of [] = no_bytes
  deltas_of (d ∷ ds) = add_bytes (when (falls_on d) d.bytes) (deltas_of ds)

  pub deltas_of-split :
      (n : ℕ) (ds : List LedgerRow)
      → deltas_of ds ≡ add_bytes (deltas_of (take n ds)) (deltas_of (drop n ds))
  unfolding deltas_of
  deltas_of-split zero ds = sym (zero_add_bytes _)
  deltas_of-split (suc n) [] = sym (zero_add_bytes _)
  deltas_of-split (suc n) (d ∷ ds) =
      ap (add_bytes (when (falls_on d) d.bytes)) (deltas_of-split n ds)
      ∙ sym (add_bytes_assoc _ _ _)

  checked_bytes_lem : (a b c : Bytes) → checked_bytes a b ≡ ok c → c ≡ add_bytes a b
  unfolding checked_bytes checked_byte_sum add_bytes
  checked_bytes_lem a b c e = ground arith

  increment_lem : (a b c : Bytes) → increment a b ≡ ok c → c ≡ add_bytes a b
  unfolding increment
  increment_lem a b c e = ground arith

  abbrev hits : Text → ℕ → Bool
  hits u d = text_eq u user && (d == day)

  is_of-same : (u : Text) (d : ℕ) (g : UsageRow) → is_of u d g ≡ true → is_of user day g ≡ hits u d
  is_of-same u d g e = ground (arith, text_eq_iff g.user_id u, ==_iff g.day d)

  when-add :
      (t : Bool) (a b rest : Bytes)
      → add_bytes (when t (add_bytes a b)) rest ≡ add_bytes (add_bytes (when t a) rest) (when t b)
  when-add true a b rest = add_bytes_right_comm a b rest
  when-add false a b rest = sym (add_bytes_zero _)

  -- A row that grows by `b`.
  grown :
      (u : Text) (d : ℕ) (g : UsageRow) (b c : Bytes) (rest : List UsageRow)
      → is_of u d g ≡ true
      → c ≡ add_bytes g.bytes b
      → usage_of (record g { bytes = c } ∷ rest)
        ≡ add_bytes (usage_of (g ∷ rest)) (when (hits u d) b)
  unfolding usage_of
  grown u d g b c rest hit sum =
      ap (λ x. add_bytes (when (is_of user day g) x) (usage_of rest)) sum
      ∙ when-add (is_of user day g) g.bytes b (usage_of rest)
      ∙ ap (λ t. add_bytes (usage_of (g ∷ rest)) (when t b)) (is_of-same u d g hit)

  passed :
      (g : UsageRow) (more rest : List UsageRow) (x : Bytes)
      → usage_of more ≡ add_bytes (usage_of rest) x
      → usage_of (g ∷ more) ≡ add_bytes (usage_of (g ∷ rest)) x
  unfolding usage_of
  passed g more rest x e =
      ap (add_bytes (when (is_of user day g) g.bytes)) e ∙ sym (add_bytes_assoc _ _ _)

  pub usage_of-add_to_group :
      (u : Text) (d : ℕ) (b : Bytes) (gs gs' : List UsageRow)
      → add_to_group u d b gs ≡ ok gs'
      → usage_of gs' ≡ add_bytes (usage_of gs) (when (hits u d) b)
  unfolding add_to_group usage_of
  usage_of-add_to_group u d b [] gs' h =
      let (sum, e, done) = bind-ok (checked_bytes no_bytes b) _ h in
      subst (λ x. usage_of x ≡ add_bytes (usage_of []) (when (hits u d) b)) (returned _ _ done)
        (ap (λ x. add_bytes (when (hits u d) x) no_bytes)
            (checked_bytes_lem no_bytes b sum e ∙ zero_add_bytes b)
          ∙ add_bytes_comm _ _)
  usage_of-add_to_group u d b (g ∷ gs) gs' h = elim (Bool-cases (is_of u d g)) [
    | inl hit ↦
        let (sum, e, done) = bind-ok (checked_bytes g.bytes b) _ (rw hit at h) in
        subst (λ x. usage_of x ≡ add_bytes (usage_of (g ∷ gs)) (when (hits u d) b))
          (returned _ _ done) (grown u d g b sum gs hit (checked_bytes_lem g.bytes b sum e))
    | inr miss ↦
        let (more, e, done) = bind-ok (add_to_group u d b gs) _ (rw miss at h) in
        subst (λ x. usage_of x ≡ add_bytes (usage_of (g ∷ gs)) (when (hits u d) b))
          (returned _ _ done) (passed g more gs _ (usage_of-add_to_group u d b gs more e))
  ]

  pub usage_of-group_deltas :
      (ds : List LedgerRow) (gs gs' : List UsageRow)
      → group_deltas ds gs ≡ ok gs'
      → usage_of gs' ≡ add_bytes (usage_of gs) (deltas_of ds)
  unfolding group_deltas deltas_of
  usage_of-group_deltas [] gs gs' h =
      subst (λ x. usage_of x ≡ add_bytes (usage_of gs) no_bytes) (returned _ _ h)
        (sym (add_bytes_zero _))
  usage_of-group_deltas (d ∷ ds) gs gs' h =
      let (more, e, rest) =
        bind-ok (add_to_group d.user_id (utc_day d.observed_at) d.bytes gs) _ h in
      usage_of-group_deltas ds more gs' rest
      ∙ ap (λ x. add_bytes x (deltas_of ds))
          (usage_of-add_to_group d.user_id (utc_day d.observed_at) d.bytes gs more e)
      ∙ add_bytes_assoc _ _ _

  pub usage_of-upsert :
      (g : UsageRow) (rs rs' : List UsageRow)
      → upsert g rs ≡ ok rs'
      → usage_of rs' ≡ add_bytes (usage_of rs) (when (is_of user day g) g.bytes)
  unfolding upsert usage_of
  usage_of-upsert g [] rs' h =
      subst (λ x. usage_of x ≡ add_bytes no_bytes (when (is_of user day g) g.bytes))
        (returned _ _ h) (add_bytes_comm _ _)
  usage_of-upsert g (r ∷ rs) rs' h = elim (Bool-cases (is_of g.user_id g.day r)) [
    | inl hit ↦
        let (sum, e, done) = bind-ok (increment r.bytes g.bytes) _ (rw hit at h) in
        subst (λ x. usage_of x ≡ add_bytes (usage_of (r ∷ rs)) (when (is_of user day g) g.bytes))
          (returned _ _ done)
          (grown g.user_id g.day r g.bytes sum rs hit (increment_lem r.bytes g.bytes sum e))
    | inr miss ↦
        let (more, e, done) = bind-ok (upsert g rs) _ (rw miss at h) in
        subst (λ x. usage_of x ≡ add_bytes (usage_of (r ∷ rs)) (when (is_of user day g) g.bytes))
          (returned _ _ done) (passed r more rs _ (usage_of-upsert g rs more e))
  ]

  pub usage_of-upsert_all :
      (gs rs rs' : List UsageRow)
      → upsert_all gs rs ≡ ok rs'
      → usage_of rs' ≡ add_bytes (usage_of rs) (usage_of gs)
  unfolding upsert_all usage_of
  usage_of-upsert_all [] rs rs' h =
      subst (λ x. usage_of x ≡ add_bytes (usage_of rs) no_bytes) (returned _ _ h)
        (sym (add_bytes_zero _))
  usage_of-upsert_all (g ∷ gs) rs rs' h =
      let (more, e, rest) = bind-ok (upsert g rs) _ h in
      usage_of-upsert_all gs more rs' rest
      ∙ ap (λ x. add_bytes x (usage_of gs)) (usage_of-upsert g rs more e)
      ∙ add_bytes_assoc _ _ _

  -- What the rows hold and what waits for them.
  abbrev pub total : Tables → Bytes
  total t = add_bytes (usage_of t.usage) (deltas_of (pending t.ledger))

  stored_usage :
      (s : Settings) (t t' : Tables) (c : Committed s t t')
      → usage_of t'.usage
        ≡ add_bytes (usage_of t.usage) (deltas_of (take s.batch_size (pending t.ledger)))
  unfolding usage_of
  stored_usage s t t' c =
      usage_of-upsert_all c.groups t.usage t'.usage c.stored
      ∙ ap (add_bytes (usage_of t.usage)) (
          usage_of-group_deltas (take s.batch_size (pending t.ledger)) [] c.groups c.grouped
          ∙ zero_add_bytes _)

  -- Where the ids of the ledger are different, a transaction of the aggregation that returns
  -- keeps, for every user and day, the sum of the bytes in the daily rows and the bytes of the
  -- deltas that wait.
  pub total-aggregate :
      (s : Settings) (now : ℕ) (verified : Bool) (t t' : Tables) (r : Aggregated)
      → Distinct t.ledger
      → aggregate s now verified t ≡ ok (r, t')
      → total t' ≡ total t
  total-aggregate s now verified t t' r d h =
      let c = aggregate_cases s now verified t t' r d h in
      ap (λ x. add_bytes (usage_of t'.usage) (deltas_of x)) c.left
      ∙ ap (λ x. add_bytes x (deltas_of (drop s.batch_size (pending t.ledger))))
          (stored_usage s t t' c)
      ∙ add_bytes_assoc _ _ _
      ∙ ap (add_bytes (usage_of t.usage)) (sym (deltas_of-split s.batch_size (pending t.ledger)))
