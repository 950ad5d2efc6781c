-- ===== src/OnlineSessions/Snapshots.antt =====
-- What a snapshot leaves in the table.
use mathlib.Core.Path.{subst}
use over_vpn.Base.{
  truthy, ℕ, Bool, true, false, not, List, [], ◌∷◌, map, filter, any, Option, none, some, is_some,
  Text, text_eq, text_eq_refl, if◌then◌else◌, ◌≡◌, ◌⊎◌, refl, arith, ap, sym, inl, inr, ℤ, ok,
}
use over_vpn.OnlineSessions.{
  OnlineClient, ClientSnapshot, SessionRow, Registry, resolve, parse_session_bytes,
  is_connection_id, seen_connection_ids, with_user,
}
use over_vpn.OnlineSessions.Run.{
  Progress, Collected, collect_client, collect_clients, collect, settle, started, is_open,
  close_unseen,
}
use over_vpn.OnlineSessions.Table.{session_of, merged, session_of-upsert, upsert-keeps}

abbrev pub Member : OnlineClient → List OnlineClient → Type 0
Member c [] = ⊥
Member c (d ∷ rest) = (c ≡ d) ⊎ Member c rest

-- The session of a connection is open, and was seen at the given time.
abbrev pub IsCurrent : ℕ → Option SessionRow → Type 0
IsCurrent captured none = ⊥
IsCurrent captured (some r) = (is_open r ≡ true) × (r.last_seen_at ≡ captured)

-- Some bytes are stored for each direction that had some.
abbrev pub has_upload : Option SessionRow → Bool
has_upload none = false
has_upload (some r) = is_some r.upload_bytes

abbrev pub has_download : Option SessionRow → Bool
has_download none = false
has_download (some r) = is_some r.download_bytes

module _ (reg : Registry) (captured : ℕ) where
  -- What every write keeps, the loop keeps.
  module _ (P : Option SessionRow → Type 0)
      (f : (c : OnlineClient) (user inbound : Text) (up down : Option ℤ) (o : Option SessionRow)
        → P o
        → P (some (merged captured c user inbound up down o))) where
    settle-keeps :
        (key : Text) (c : OnlineClient) (o : Option (Text × Text)) (s : Progress)
        → P (session_of key s.rows)
        → P (session_of key (settle reg captured c o s).rows)
    settle-keeps key c none s p = p
    settle-keeps key c (some (user, inbound)) s p =
        let up = parse_session_bytes c.upload_bytes in
        let down = parse_session_bytes c.download_bytes in
        upsert-keeps captured c user inbound up down P (f c user inbound up down) key s.rows p

    pub collect_clients-keeps :
        (key : Text) (cs : List OnlineClient) (s : Progress)
        → P (session_of key s.rows)
        → P (session_of key (collect_clients reg captured cs s).rows)
    unfolding collect_clients collect_client
    collect_clients-keeps key [] s p = p
    collect_clients-keeps key (c ∷ cs) s p =
        let o = resolve reg c in
        collect_clients-keeps key cs (settle reg captured c o s) (settle-keeps key c o s p)

  merged-IsCurrent :
      (c : OnlineClient) (user inbound : Text) (up down : Option ℤ) (o : Option SessionRow)
      → IsCurrent captured (some (merged captured c user inbound up down o))
  merged-IsCurrent c user inbound up down none = (refl, refl)
  merged-IsCurrent c user inbound up down (some r) = (refl, refl)

  settle-IsCurrent :
      (c : OnlineClient) (user inbound : Text) (s : Progress)
      → IsCurrent captured
          (session_of c.connection_id (settle reg captured c (some (user, inbound)) s).rows)
  settle-IsCurrent c user inbound s =
      let up = parse_session_bytes c.upload_bytes in
      let down = parse_session_bytes c.download_bytes in
      subst (IsCurrent captured) (sym (session_of-upsert captured c user inbound up down s.rows))
        (merged-IsCurrent c user inbound up down (session_of c.connection_id s.rows))

  pub collect_clients-IsCurrent :
      (c : OnlineClient) (user inbound : Text) (cs : List OnlineClient) (s : Progress)
      → Member c cs
      → resolve reg c ≡ some (user, inbound)
      → IsCurrent captured (session_of c.connection_id (collect_clients reg captured cs s).rows)
  unfolding collect_clients collect_client
  collect_clients-IsCurrent c user inbound [] s m r = elim m [ ]
  collect_clients-IsCurrent c user inbound (d ∷ cs) s (inl same) r =
      let t = settle reg captured d (resolve reg d) s in
      collect_clients-keeps (IsCurrent captured)
        (λ c u i up down o p. merged-IsCurrent c u i up down o) c.connection_id cs t
        (subst (λ x. IsCurrent captured (session_of x.connection_id t.rows)) (sym same)
          (subst
            (λ o. IsCurrent captured (session_of d.connection_id (settle reg captured d o s).rows))
            (sym (subst (λ x. resolve reg x ≡ some (user, inbound)) same r))
            (settle-IsCurrent d user inbound s)))
  collect_clients-IsCurrent c user inbound (d ∷ cs) s (inr m) r =
      collect_clients-IsCurrent c user inbound cs (settle reg captured d (resolve reg d) s) m r

-- An id of a client that is one stands among the ids that were seen.
pub seen-Member :
    (c : OnlineClient) (cs : List OnlineClient)
    → Member c cs
    → is_connection_id c.connection_id ≡ true
    → any (λ k. text_eq k c.connection_id) (filter is_connection_id (map (λ d. d.connection_id) cs))
      ≡ true
seen-Member c [] m h = elim m [ ]
seen-Member c (d ∷ cs) (inl same) h =
    let e = ap (λ x. x.connection_id) same in ground (arith, h, e, text_eq_refl c.connection_id)
seen-Member c (d ∷ cs) (inr m) h = ground (arith, seen-Member c cs m h)

unless :
    {A : Type 0} (b : Bool) (o : Option A) (x : A) → (if not b then none else o) ≡ some x → b ≡ true
unless true o x e = refl
unless false o x e = cc

pub resolve-id :
    (reg : Registry) (c : OnlineClient) (x : Text × Text)
    → resolve reg c ≡ some x
    → is_connection_id c.connection_id ≡ true
unfolding resolve
resolve-id reg c x e =
    unless (is_connection_id c.connection_id) (with_user reg c (truthy c.panel_user_id)) x e

pub finished_rows :
    (reg : Registry) (snap : ClientSnapshot) (verified : Bool) (rows rows' : List SessionRow)
    (r : Collected)
    → collect reg snap verified rows ≡ ok (r, rows')
    → let s = collect_clients reg snap.captured_at snap.clients (started snap rows) in
      (if snap.partial
        then s.rows
        else close_unseen (seen_connection_ids snap) snap.captured_at s.rows)
      ≡ rows'
unfolding collect
finished_rows reg snap true rows rows' r h = cc
finished_rows reg snap false rows rows' r h = cc
