-- ===== src/OnlineSessions/Table.antt =====
-- The session of a connection in the table, under the writes of the collector.
use mathlib.Core.Path.{subst}
use over_vpn.Base.{
  ℕ, true, false, List, [], ◌∷◌, any, Option, none, some, Text, text_eq, text_eq_iff, text_eq_refl,
  ◌≡◌, refl, arith, sym, Bool-cases, inl, inr, ℤ,
}
use over_vpn.OnlineSessions.{OnlineClient, SessionRow, first_of, upsert, created, updated}
use over_vpn.OnlineSessions.Run.{close_unseen}

abbrev pub session_of : Text → List SessionRow → Option SessionRow
session_of key = first_of (λ r. text_eq r.session_key key)

module _ (captured : ℕ) (c : OnlineClient) (user inbound : Text) (up down : Option ℤ) where
  abbrev pub merged : Option SessionRow → SessionRow
  merged none = created captured c user inbound up down
  merged (some r) = updated captured c user inbound up down r

  pub session_of-upsert :
      (rows : List SessionRow)
      → session_of c.connection_id (upsert captured c user inbound up down rows)
        ≡ some (merged (session_of c.connection_id rows))
  unfolding upsert
  session_of-upsert [] = rw (text_eq_refl c.connection_id) refl
  session_of-upsert (r ∷ rs) = elim (Bool-cases (text_eq r.session_key c.connection_id)) [
    | inl hit ↦ rw (hit, hit) refl
    | inr miss ↦ rw (miss, miss) (session_of-upsert rs)
  ]

  pub session_of-upsert_other :
      (key : Text) (rows : List SessionRow)
      → text_eq c.connection_id key ≡ false
      → session_of key (upsert captured c user inbound up down rows) ≡ session_of key rows
  unfolding upsert
  session_of-upsert_other key [] other = rw other refl
  session_of-upsert_other key (r ∷ rs) other = ground (
    arith,
    session_of-upsert_other key rs other,
    text_eq_iff r.session_key c.connection_id,
    text_eq_iff r.session_key key,
    text_eq_iff c.connection_id key,
  )

  -- What a write keeps of the session of any connection.
  pub upsert-keeps :
      (P : Option SessionRow → Type 0)
      → ((o : Option SessionRow) → P o → P (some (merged o)))
      → (key : Text) (rows : List SessionRow) → P (session_of key rows)
      → P (session_of key (upsert captured c user inbound up down rows))
  upsert-keeps P f key rows h = elim (Bool-cases (text_eq c.connection_id key)) [
    | inl same ↦
        let e = (text_eq_iff c.connection_id key).0 same in
        subst (λ k. P (session_of k (upsert captured c user inbound up down rows))) e
          (subst P (sym (session_of-upsert rows))
            (f _ (subst (λ k. P (session_of k rows)) (sym e) h)))
    | inr other ↦ subst P (sym (session_of-upsert_other key rows other)) h
  ]

-- A session that the snapshot names is left by the closing of the others.
pub session_of-close_unseen :
    (seen : List Text) (captured : ℕ) (key : Text) (rows : List SessionRow)
    → any (λ k. text_eq k key) seen ≡ true
    → session_of key (close_unseen seen captured rows) ≡ session_of key rows
unfolding close_unseen
session_of-close_unseen seen captured key [] h = refl
session_of-close_unseen seen captured key (r ∷ rs) h =
    elim (Bool-cases (text_eq r.session_key key)) [
      | inl same ↦
          let e : any (λ k. text_eq k r.session_key) seen ≡ true =
            rw ((text_eq_iff r.session_key key).0 same) h in
          ground (arith, e, same)
      | inr other ↦ ground (arith, session_of-close_unseen seen captured key rs h, other)
    ]
