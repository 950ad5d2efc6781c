-- ===== src/OnlineSessions.antt =====
-- apps/api/src/workers/online-session-collector.service.ts and online-session-sweeper.service.ts:
-- the table of the sessions that the cores report. The snapshot of the provider, and the answers of
-- the lock, are arguments; the records of the worker's health are left out.
pub mod Sweep
pub mod Table
pub mod Snapshots
pub mod Run
pub mod Current
mod Tests
use over_vpn.Base.{
  truthy, ℕ, suc, ◌+◌, ◌*◌, ◌-◌, Bool, true, false, not, ◌&&◌, ◌||◌, List, [], ◌∷◌, ◌++◌, map,
  filter, any, length, Option, none, some, is_some, Text, codes, text_eq, if◌then◌else◌, ltb, leb,
  ◌==◌, Result, ok, throw, ◌>>=◌, ℤ,
}
use over_vpn.Schema.{CoreEngine, xray, User}
use over_vpn.Accounting.{parse_nonnegative_int64}

-- A client of the snapshot.
pub record OnlineClient : Type 0 where
  pub connection_id : Text
  pub engine : CoreEngine
  pub panel_user_id : Option Text
  pub inbound_tag : Option Text
  pub ip_address : Option Text
  pub device : Option Text
  pub connected_at : Option ℕ
  pub upload_bytes : Option Text
  pub download_bytes : Option Text

pub record ClientSnapshot : Type 0 where
  pub captured_at : ℕ
  pub clients : List OnlineClient
  pub partial : Bool
  pub warnings : List Text

pub record SessionRow : Type 0 where
  pub session_key : Text
  pub engine : CoreEngine
  pub user_id : Text
  pub inbound_id : Text
  pub ip_address : Option Text
  pub device_id : Option Text
  pub upload_bytes : Option ℤ
  pub download_bytes : Option ℤ
  pub connected_at : ℕ
  pub last_seen_at : ℕ
  pub disconnected_at : Option ℕ

pub record InboundRow : Type 0 where
  pub id : Text
  pub tag : Text
  pub engine : CoreEngine
  pub enabled : Bool

-- An assignment with what the query asks of its inbound.
pub record AssignmentRow : Type 0 where
  pub user_id : Text
  pub inbound_id : Text
  pub active : Bool
  pub inbound_engine : CoreEngine
  pub inbound_enabled : Bool

-- The tables that a run reads; the assignments of a user are in the order of their ids.
pub record Registry : Type 0 where
  pub users : List User
  pub inbounds : List InboundRow
  pub assignments : List AssignmentRow

pub data SessionError : Type 0 where
  lock_lost : SessionError

abbrev pub first_of {ℓ} : {A : Type ℓ} → (A → Bool) → List A → Option A
first_of p [] = none
first_of p (x ∷ xs) = if p x then some x else first_of p xs

-- A map built of the rows: the last one of a key stands.
abbrev pub last_of {ℓ} : {A : Type ℓ} → (A → Bool) → List A → Option A
last_of p [] = none
last_of p (x ∷ xs) = elim (last_of p xs) [ none ↦ if p x then some x else none | some y ↦ some y ]

abbrev pub is_connection_id : Text → Bool
is_connection_id id = ltb 0 (length id) && leb (length id) 255

-- `seenConnectionIds`
abbrev pub seen_connection_ids : ClientSnapshot → List Text
seen_connection_ids s = filter is_connection_id (map (λ c. c.connection_id) s.clients)

-- `knownUsers`
abbrev pub known_user : Registry → Text → Bool
known_user reg id = any (λ u. text_eq u.id id && not (is_some u.deleted_at)) reg.users

abbrev pub inbound_id_of : Option InboundRow → Option Text
inbound_id_of none = none
inbound_id_of (some i) = some i.id

abbrev pub is_xray : CoreEngine → Bool
is_xray xray = true
is_xray _ = false

abbrev pub assignment_id_of : Option AssignmentRow → Option Text
assignment_id_of none = none
assignment_id_of (some a) = some a.inbound_id

-- `xrayInboundByUser`: the first assignment of each user.
abbrev pub xray_inbound_of : Registry → Text → Option Text
xray_inbound_of reg user = assignment_id_of (
    first_of
      (λ a. text_eq a.user_id user && a.active && is_xray a.inbound_engine && a.inbound_enabled)
      reg.assignments)

abbrev pub inbound_of : Registry → CoreEngine → Text → Option Text → Option Text
inbound_of reg engine user (some tag) =
    inbound_id_of (last_of (λ i. text_eq i.tag tag) reg.inbounds)
inbound_of reg engine user none = if is_xray engine then xray_inbound_of reg user else none

-- The user and the inbound of a client, where both are known.
abbrev pub with_user : Registry → OnlineClient → Option Text → Option (Text × Text)
with_user reg c none = none
with_user reg c (some user) =
    if not (known_user reg user)
    then none
    else elim (truthy (inbound_of reg c.engine user (truthy c.inbound_tag))) [
      | none ↦ none
      | some inbound ↦ some (user, inbound)
    ]

unfoldable pub resolve : Registry → OnlineClient → Option (Text × Text)
resolve reg c =
    if not (is_connection_id c.connection_id)
    then none
    else with_user reg c (truthy c.panel_user_id)

abbrev pub at_most : ℕ → Option Text → Option Text
at_most n none = none
at_most n (some t) = if leb (length t) n then some t else none

abbrev pub ip_device : Option Text → Option Text
ip_device none = none
ip_device (some ip) = some (codes "ip:" ++ ip)

abbrev pub or_else : Option Text → Option Text → Option Text
or_else (some t) other = some t
or_else none other = other

unfoldable pub ip_of : OnlineClient → Option Text
ip_of c = at_most 64 (truthy c.ip_address)

unfoldable pub device_of : OnlineClient → Option Text
device_of c = or_else (at_most 255 (truthy c.device)) (ip_device (ip_of c))

abbrev pub connected_or : ℕ → Option ℕ → ℕ
connected_or captured none = captured
connected_or captured (some at) = if leb at captured then at else captured

-- `parseSessionBytes`
unfoldable pub parse_session_bytes : Option Text → Option ℤ
parse_session_bytes value = elim (truthy value) [ none ↦ none | some t ↦ parse_nonnegative_int64 t ]

-- `trafficUpdateFields`: a value that is not reported leaves what is stored.
abbrev pub kept : Option ℤ → Option ℤ → Option ℤ
kept none stored = stored
kept (some n) stored = some n

module _ (captured : ℕ) (c : OnlineClient) (user inbound : Text) (up down : Option ℤ) where
  abbrev pub created : SessionRow
  created = record {
    session_key = c.connection_id;
    engine = c.engine;
    user_id = user;
    inbound_id = inbound;
    ip_address = ip_of c;
    device_id = device_of c;
    upload_bytes = up;
    download_bytes = down;
    connected_at = connected_or captured c.connected_at;
    last_seen_at = captured;
    disconnected_at = none;
  }

  abbrev pub updated : SessionRow → SessionRow
  updated r = record r {
    engine = c.engine;
    user_id = user;
    inbound_id = inbound;
    ip_address = ip_of c;
    device_id = device_of c;
    upload_bytes = kept up r.upload_bytes;
    download_bytes = kept down r.download_bytes;
    last_seen_at = captured;
    disconnected_at = none;
  }

  -- `upsert`
  unfoldable pub upsert : List SessionRow → List SessionRow
  upsert [] = created ∷ []
  upsert (r ∷ rs) = if text_eq r.session_key c.connection_id then updated r ∷ rs else r ∷ upsert rs
