-- ===== src/OnlineSessions/Run.antt =====
-- A run of the collector of online sessions, and one of the sweeper.
use over_vpn.Base.{
  truthy, ℕ, ◌+◌, ◌-◌, Bool, not, ◌&&◌, ◌||◌, List, [], ◌∷◌, map, filter, any, length, Option, none,
  some, is_some, Text, text_eq, if◌then◌else◌, ltb, Result, ok, throw,
}
use over_vpn.OnlineSessions.{
  OnlineClient, ClientSnapshot, SessionRow, Registry, SessionError, lock_lost, seen_connection_ids,
  resolve, ip_of, parse_session_bytes, upsert,
}

-- The variables of the loop over the clients.
pub record Progress : Type 0 where
  pub rows : List SessionRow
  pub resolved : ℕ
  pub unresolved : ℕ
  pub invalid : ℕ

abbrev pub count_if : Bool → ℕ
count_if b = if b then 1 else 0

module _ (reg : Registry) (captured : ℕ) where
  abbrev pub stored : OnlineClient → Text → Text → Progress → Progress
  stored c user inbound s = record s {
    rows =
        upsert captured c user inbound (parse_session_bytes c.upload_bytes)
          (parse_session_bytes c.download_bytes) s.rows;
    resolved = s.resolved + 1;
    invalid = s.invalid + count_if (is_some (truthy c.ip_address) && not (is_some (ip_of c)));
  }

  abbrev pub settle : OnlineClient → Option (Text × Text) → Progress → Progress
  settle c none s = record s { unresolved = s.unresolved + 1 }
  settle c (some (user, inbound)) s = stored c user inbound s

  -- One client of the snapshot.
  unfoldable pub collect_client : OnlineClient → Progress → Progress
  collect_client c s = settle c (resolve reg c) s

  unfoldable pub collect_clients : List OnlineClient → Progress → Progress
  collect_clients [] s = s
  collect_clients (c ∷ cs) s = collect_clients cs (collect_client c s)

abbrev pub is_open : SessionRow → Bool
is_open r = not (is_some r.disconnected_at)

abbrev pub is_seen : List Text → SessionRow → Bool
is_seen seen r = any (λ k. text_eq k r.session_key) seen

-- The open sessions that the snapshot does not name are closed.
unfoldable pub close_unseen : List Text → ℕ → List SessionRow → List SessionRow
close_unseen seen captured = map λ r.
    if is_open r && not (is_seen seen r) then record r { disconnected_at = some captured } else r

abbrev pub unseen : List Text → List SessionRow → ℕ
unseen seen rows = length (filter (λ r. is_open r && not (is_seen seen r)) rows)

pub record Collected : Type 0 where
  pub resolved : ℕ
  pub unresolved : ℕ
  pub invalid : ℕ
  pub disconnected : ℕ

abbrev pub started : ClientSnapshot → List SessionRow → Progress
started snap rows = record {
  rows = rows;
  resolved = 0;
  unresolved = 0;
  invalid = length snap.clients - length (seen_connection_ids snap);
}

abbrev pub finished : ClientSnapshot → Progress → Collected × List SessionRow
finished snap s = (
  record {
    resolved = s.resolved;
    unresolved = s.unresolved;
    invalid = s.invalid;
    disconnected = if snap.partial then 0 else unseen (seen_connection_ids snap) s.rows;
  },
  if snap.partial then s.rows else close_unseen (seen_connection_ids snap) snap.captured_at s.rows,
)

-- The transaction of the collector; `verified` is the answer of `assertOwned.verify`.
unfoldable pub collect :
    Registry
    → ClientSnapshot
    → Bool
    → List SessionRow
    → Result SessionError (Collected × List SessionRow)
collect reg snap verified rows =
    let s = collect_clients reg snap.captured_at snap.clients (started snap rows) in
    if verified then ok (finished snap s) else throw lock_lost

pub data RunStatus : Type 0 where
  healthy degraded failed : RunStatus

pub data CollectionResult : Type 0 where
  not_acquired : CollectionResult
  acquired : (status : RunStatus) (observed resolved disconnected : ℕ) → CollectionResult

-- What the lock answers in the course of a run.
pub record Answers : Type 0 where
  pub enabled : Bool
  pub lock_acquired : Bool
  pub owned_after_snapshot : Bool
  pub owned_in_transaction : Bool
  pub owned_at_end : Bool

abbrev pub is_degraded : ClientSnapshot → Collected → Bool
is_degraded snap c =
    snap.partial || ltb 0 (length snap.warnings) || ltb 0 c.unresolved || ltb 0 c.invalid

abbrev pub verdict : ClientSnapshot → Collected → CollectionResult
verdict snap c =
    acquired (if is_degraded snap c then degraded else healthy) (length snap.clients) c.resolved
      c.disconnected

abbrev pub failure : CollectionResult
failure = acquired failed 0 0 0

-- The end of a run: what a transaction wrote stays, although the lock is lost later.
abbrev pub concluded :
    Bool
    → ClientSnapshot
    → List SessionRow
    → Result SessionError (Collected × List SessionRow)
    → CollectionResult × List SessionRow
concluded owned snap rows (throw e) = (failure, rows)
concluded owned snap rows (ok (c, rows')) = (if owned then verdict snap c else failure, rows')

-- `runOnce` of the collector.
unfoldable pub run_once :
    Registry → ClientSnapshot → Answers → List SessionRow → CollectionResult × List SessionRow
run_once reg snap a rows =
    if not a.enabled || not a.lock_acquired
    then (not_acquired, rows)
    else if not a.owned_after_snapshot
    then (failure, rows)
    else concluded a.owned_at_end snap rows (collect reg snap a.owned_in_transaction rows)
