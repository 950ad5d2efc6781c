-- ===== src/Collector/Usage.antt =====
-- What the collector's second loop does to the rows of the users.
use over_vpn.Base.{
  ◌≡◌, refl, sym, ap, ◌∙◌, Bool, true, false, ◌&&◌, List, [], ◌∷◌, none, some, Text, text_eq,
  text_eq_iff, arith, if◌then◌else◌, +ℤ_assoc, +ℤ_zero, ◌+ℤ◌, ok, bind-ok, Bool-cases, Option-cases,
  inl, inr,
}
use over_vpn.Schema.{User, Bytes, no_bytes, add_bytes}
use over_vpn.Accounting.{checked_byte_sum}
use over_vpn.Collector.{is_none, user_by_id, lift}
use over_vpn.Collector.Transaction.{increment_used, apply_deltas}
use over_vpn.Collector.Conservation.{charged_of}

-- What a user's row holds.
unfoldable pub used_of : User → Bytes
used_of u = record { upload = u.used_upload_bytes; download = u.used_download_bytes }

abbrev pub credited : Bytes → User → User
credited d u = record u {
  used_upload_bytes = u.used_upload_bytes +ℤ d.upload;
  used_download_bytes = u.used_download_bytes +ℤ d.download;
}

pub used_of-credited : (d : Bytes) (u : User) → used_of (credited d u) ≡ add_bytes (used_of u) d
unfolding used_of add_bytes
used_of-credited d u = refl

credited-credited :
    (d e : Bytes) (u : User) → credited e (credited d u) ≡ credited (add_bytes d e) u
unfolding add_bytes
credited-credited d e u = λ i. record u {
  used_upload_bytes = +ℤ_assoc u.used_upload_bytes d.upload e.upload i;
  used_download_bytes = +ℤ_assoc u.used_download_bytes d.download e.download i;
}

credited-none : (u : User) → credited no_bytes u ≡ u
credited-none u = λ i. record u {
  used_upload_bytes = +ℤ_zero u.used_upload_bytes i;
  used_download_bytes = +ℤ_zero u.used_download_bytes i;
}

module _ (j : Text) where
  abbrev credit_if : Bool → Bytes → User → User
  credit_if test d u = if test then credited d u else u

  user_by_id-increment :
      (id : Text) (d : Bytes) (us : List User) (v : User)
      → user_by_id us j ≡ some v
      → user_by_id (increment_used id d us) j ≡ some (credit_if (text_eq id j) d v)
  unfolding user_by_id
  user_by_id-increment id d [] v h = cc
  user_by_id-increment id d (u ∷ us) v h =
      elim (Bool-cases (text_eq u.id j && is_none u.deleted_at)) [
        | inl here ↦
            let same : u ≡ v = cc (rw here at h) in
            elim (Bool-cases (text_eq u.id id)) [
              | inl hit ↦
                  let e : text_eq id j ≡ true =
                    ground (arith, text_eq_iff u.id id, text_eq_iff u.id j, text_eq_iff id j) in
                  rw (hit, here, e) (ap (λ x. some (credited d x)) same)
              | inr miss ↦
                  let e : text_eq id j ≡ false =
                    ground (arith, text_eq_iff u.id id, text_eq_iff u.id j, text_eq_iff id j) in
                  rw (miss, here, e) (ap some same)
            ]
        | inr later ↦
            let rest = user_by_id-increment id d us v (rw later at h) in
            elim (Bool-cases (text_eq u.id id)) [
              | inl hit ↦ rw (hit, later) rest
              | inr miss ↦ rw (miss, later) rest
            ]
      ]

  folded :
      (id : Text) (d : Bytes) (m : List (Text × Bytes)) (v : User)
      → credited (charged_of j m) (credit_if (text_eq id j) d v)
        ≡ credited (charged_of j ((id, d) ∷ m)) v
  unfolding charged_of
  folded id d m v = elim (Bool-cases (text_eq id j)) [
    | inl same ↦ rw same (credited-credited d (charged_of j m) v)
    | inr other ↦ rw other
  ]

  -- A known user's row goes up by all that the map charges the user.
  pub apply_deltas_of :
      (read : List User) (w : User)
      → user_by_id read j ≡ some w
      → (m : List (Text × Bytes)) (us us' : List User) (v : User) → apply_deltas read m us ≡ ok us'
      → user_by_id us j ≡ some v
      → user_by_id us' j ≡ some (credited (charged_of j m) v)
  unfolding apply_deltas charged_of
  apply_deltas_of read w known [] us us' v h at_j =
      let e : us ≡ us' = cc in rw (← e) (at_j ∙ ap some (sym (credited-none v)))
  apply_deltas_of read w known ((id, d) ∷ m) us us' v h at_j =
      elim (Option-cases (user_by_id read id)) [
        | inl unknown ↦
            let other = not_here id unknown in
            rw other
              (apply_deltas_of read w known m us us' v (rw (unknown, apply_deltas) at h) at_j)
        | inr (u, found) ↦
            let (_, _, rest) =
              bind-ok (lift (checked_byte_sum u.used_upload_bytes d.upload)) _
                (rw (found, apply_deltas) at h) in
            let (_, _, rest') =
              bind-ok (lift (checked_byte_sum u.used_download_bytes d.download)) _ rest in
            apply_deltas_of read w known m (increment_used id d us) us' _ rest'
              (user_by_id-increment id d us v at_j)
            ∙ ap some (folded id d m v)
      ]
    where
      not_here : (id : Text) → user_by_id read id ≡ none → text_eq id j ≡ false
      not_here id unknown = elim (Bool-cases (text_eq id j)) [
        | inl same ↦ absurd (cc (unknown, known, ap (user_by_id read) ((text_eq_iff id j).0 same)))
        | inr other ↦ other
      ]
