-- ===== src/OnlineSessions/Current.antt =====
-- The open sessions after a snapshot, and the bytes that stay known.
use mathlib.Core.Path.{subst}
use over_vpn.Base.{
  ℕ, Bool, true, false, List, [], ◌∷◌, any, Option, none, some, is_some, Text, text_eq,
  if◌then◌else◌, ◌≡◌, refl, arith, ap, ◌∙◌, sym, Bool-cases, inl, inr, ℤ, ok, All,
}
use over_vpn.OnlineSessions.{
  OnlineClient, ClientSnapshot, SessionRow, Registry, resolve, seen_connection_ids, kept,
}
use over_vpn.OnlineSessions.Run.{
  Collected, collect, collect_clients, started, finished, is_open, is_seen, close_unseen,
}
use over_vpn.OnlineSessions.Table.{session_of, merged, session_of-close_unseen}
use over_vpn.OnlineSessions.Snapshots.{
  Member, IsCurrent, has_upload, has_download, collect_clients-keeps, collect_clients-IsCurrent,
  resolve-id, seen-Member, finished_rows,
}

seen_only :
    (seen : List Text) (captured : ℕ) (rows : List SessionRow)
    → All (λ r. is_open r ≡ true → is_seen seen r ≡ true) (close_unseen seen captured rows)
unfolding close_unseen
seen_only seen captured [] = tt
seen_only seen captured (r ∷ rs) = ((λ e. ground arith), seen_only seen captured rs)

up_merged :
    (captured : ℕ) (c : OnlineClient) (user inbound : Text) (up down : Option ℤ)
    (o : Option SessionRow)
    → has_upload o ≡ true
    → has_upload (some (merged captured c user inbound up down o)) ≡ true
up_merged captured c user inbound up down none h = cc
up_merged captured c user inbound up down (some r) h =
    elim up as (λ x. is_some (kept x r.upload_bytes) ≡ true) [ none ↦ h | some n ↦ refl ]

up_close :
    (seen : List Text) (captured : ℕ) (key : Text) (xs : List SessionRow)
    → has_upload (session_of key (close_unseen seen captured xs)) ≡ has_upload (session_of key xs)
unfolding close_unseen
up_close seen captured key [] = refl
up_close seen captured key (r ∷ rs) = ground (arith, up_close seen captured key rs)

down_merged :
    (captured : ℕ) (c : OnlineClient) (user inbound : Text) (up down : Option ℤ)
    (o : Option SessionRow)
    → has_download o ≡ true
    → has_download (some (merged captured c user inbound up down o)) ≡ true
down_merged captured c user inbound up down none h = cc
down_merged captured c user inbound up down (some r) h =
    elim down as (λ x. is_some (kept x r.download_bytes) ≡ true) [ none ↦ h | some n ↦ refl ]

down_close :
    (seen : List Text) (captured : ℕ) (key : Text) (xs : List SessionRow)
    → has_download (session_of key (close_unseen seen captured xs))
      ≡ has_download (session_of key xs)
unfolding close_unseen
down_close seen captured key [] = refl
down_close seen captured key (r ∷ rs) = ground (arith, down_close seen captured key rs)

up_either :
    (partial : Bool) (seen : List Text) (captured : ℕ) (key : Text) (xs : List SessionRow)
    → has_upload (session_of key (if partial then xs else close_unseen seen captured xs))
      ≡ has_upload (session_of key xs)
up_either true seen captured key xs = refl
up_either false seen captured key xs = up_close seen captured key xs

down_either :
    (partial : Bool) (seen : List Text) (captured : ℕ) (key : Text) (xs : List SessionRow)
    → has_download (session_of key (if partial then xs else close_unseen seen captured xs))
      ≡ has_download (session_of key xs)
down_either true seen captured key xs = refl
down_either false seen captured key xs = down_close seen captured key xs

-- A transaction of the collector on a snapshot that is not partial commits where the lock is still
-- owned, whatever the clients of the snapshot report, and every session that is open afterwards is
-- one of the connections that the snapshot names.
pub open_are_seen :
    (reg : Registry) (snap : ClientSnapshot) (rows : List SessionRow)
    → snap.partial ≡ false
    → (out : Collected × List SessionRow) × (collect reg snap true rows ≡ ok out)
      × All (λ r. is_open r ≡ true → is_seen (seen_connection_ids snap) r ≡ true) out.1
unfolding collect
open_are_seen reg snap rows whole =
    let s = collect_clients reg snap.captured_at snap.clients (started snap rows) in
    (
      finished snap s,
      refl,
      subst (All (λ r. is_open r ≡ true → is_seen (seen_connection_ids snap) r ≡ true))
          (sym (rw whole refl)) (seen_only (seen_connection_ids snap) snap.captured_at s.rows),
    )

module _ (reg : Registry) (snap : ClientSnapshot) (verified : Bool) (rows rows' : List SessionRow)
    (r : Collected) (done : collect reg snap verified rows ≡ ok (r, rows')) where
  closed-keeps :
      (P : Option SessionRow → Type 0) (key : Text) (xs : List SessionRow)
      → any (λ k. text_eq k key) (seen_connection_ids snap) ≡ true
      → (if snap.partial then xs else close_unseen (seen_connection_ids snap) snap.captured_at xs)
        ≡ rows'
      → P (session_of key xs)
      → P (session_of key rows')
  closed-keeps P key xs seen e p = elim (Bool-cases snap.partial) [
    | inl part ↦ subst (λ x. P (session_of key x)) (sym (rw part refl) ∙ e) p
    | inr whole ↦
        subst (λ x. P (session_of key x)) (sym (rw whole refl) ∙ e)
          (subst P
            (sym (session_of-close_unseen (seen_connection_ids snap) snap.captured_at key xs seen))
            p)
  ]

  -- When a snapshot has been stored, the session of each client whose user and inbound are
  -- resolved is open and was last seen at the instant of the snapshot.
  pub resolved_seen_now :
      (c : OnlineClient) (user inbound : Text)
      → Member c snap.clients
      → resolve reg c ≡ some (user, inbound)
      → IsCurrent snap.captured_at (session_of c.connection_id rows')
  resolved_seen_now c user inbound m e =
      let s = collect_clients reg snap.captured_at snap.clients (started snap rows) in
      let f = finished_rows reg snap verified rows rows' r done in
      closed-keeps (IsCurrent snap.captured_at) c.connection_id s.rows
        (seen-Member c snap.clients m (resolve-id reg c (user, inbound) e)) f
        (collect_clients-IsCurrent reg snap.captured_at c user inbound snap.clients
          (started snap rows) m e)

  -- When a snapshot has been stored, a session that had uploaded bytes recorded has some recorded,
  -- and so for the downloaded bytes.
  pub bytes_kept :
      (key : Text)
      → (has_upload (session_of key rows) ≡ true → has_upload (session_of key rows') ≡ true)
        × (has_download (session_of key rows) ≡ true → has_download (session_of key rows') ≡ true)
  bytes_kept key =
      let s = collect_clients reg snap.captured_at snap.clients (started snap rows) in
      let f = finished_rows reg snap verified rows rows' r done in
      (
        (λ h.
            ap (λ x. has_upload (session_of key x)) (sym f)
            ∙ up_either snap.partial (seen_connection_ids snap) snap.captured_at key s.rows
            ∙ collect_clients-keeps reg snap.captured_at (λ o. has_upload o ≡ true)
                (up_merged snap.captured_at) key snap.clients (started snap rows) h),
        (λ h.
            ap (λ x. has_download (session_of key x)) (sym f)
            ∙ down_either snap.partial (seen_connection_ids snap) snap.captured_at key s.rows
            ∙ collect_clients-keeps reg snap.captured_at (λ o. has_download o ≡ true)
                (down_merged snap.captured_at) key snap.clients (started snap rows) h),
      )
