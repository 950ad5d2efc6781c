-- ===== src/Lock.antt =====
-- apps/api/src/core/distributed-lock.ts: a lock of several processes on a key of a Redis server. The
-- server's commands and the two scripts act on the key's entry; a server that does not answer is a
-- possible answer.
pub mod Exclusion
pub mod Attempt
mod Tests
use over_vpn.Base.{
  ℕ, ◌+◌, Bool, true, false, not, ◌&&◌, ◌||◌, List, [], ◌∷◌, Option, none, some, Text, text_eq,
  codes, get, put, if◌then◌else◌, ltb, leb, Result, ok, throw,
}

pub record Entry : Type 0 where
  pub token : Text
  pub until : ℕ

-- The entry as the server sees it at an instant: an expired one is gone.
unfoldable pub live : ℕ → Option Entry → Option Entry
live now none = none
live now (some e) = if ltb now e.until then some e else none

abbrev pub set_free : Text → ℕ → Option Entry → Bool × Option Entry
set_free token until none = (true, some (record { token = token; until = until }))
set_free token until (some e) = (false, some e)

-- `SET key token PX ttl NX`.
unfoldable pub set_nx : Text → ℕ → ℕ → Option Entry → Bool × Option Entry
set_nx token ttl now entry = set_free token (now + ttl) (live now entry)

-- `redis.call("GET", KEYS[1]) == ARGV[1]`.
unfoldable pub owns : Text → Option Entry → Bool
owns token none = false
owns token (some e) = text_eq e.token token

-- `RENEW_LOCK_LUA`.
unfoldable pub renew_script : Text → ℕ → ℕ → Option Entry → Bool × Option Entry
renew_script token ttl now entry =
    if owns token (live now entry)
    then (true, some (record { token = token; until = now + ttl }))
    else (false, live now entry)

-- `RELEASE_LOCK_LUA`.
unfoldable pub release_script : Text → ℕ → Option Entry → Bool × Option Entry
release_script token now entry =
    if owns token (live now entry) then (true, none) else (false, live now entry)

-- The server, and for each token the instant until which its process may rely on the lock.
pub record System : Type 0 where
  pub now : ℕ
  pub entry : Option Entry
  pub grants : List (Text × ℕ)

-- A process that got the lock at an instant relies on it for the time to live.
abbrev pub granted : Text → ℕ → Bool × Option Entry → System → System
granted token ttl (true, e) s = record s { entry = e; grants = put token (s.now + ttl) s.grants }
granted token ttl (false, e) s = record s { entry = e }

-- The steps of the processes and of time, in any order.
pub data Step : System → System → Type 0 where
  tick : (s : System) (d : ℕ) → Step s (record s { now = s.now + d })
  acquire :
      (s : System) (token : Text) (ttl : ℕ)
      → Step s (granted token ttl (set_nx token ttl s.now s.entry) s)
  renew :
      (s : System) (token : Text) (ttl : ℕ)
      → Step s (granted token ttl (renew_script token ttl s.now s.entry) s)
  -- A process gives up its reliance when it sends the release.
  release :
      (s : System) (token : Text)
      → Step s (record s {
        entry = (release_script token s.now s.entry).1;
        grants = put token 0 s.grants;
      })

pub data Reachable : System → Type 0 where
  start : (now : ℕ) → Reachable (record { now = now; entry = none; grants = [] })
  next : (s t : System) → Reachable s → Step s t → Reachable t

pub data LockError : Type 0 where
  invalid_lock ownership_lost renewal_failed no_answer lock_held : LockError

-- What a call of the server gives.
pub data Answer : Type 0 where
  agreed refused unreachable : Answer

-- What happens in the course of an operation: the timer renews, `verify` renews and asserts, and
-- `assertOwned` asserts.
pub data Event : Type 0 where
  renewal : Answer → Event
  verify : Answer → Event
  assertion : Event

-- `renew`: once the ownership is in doubt there is no further call.
abbrev pub renewed : Answer → Option LockError → Option LockError
renewed a (some e) = some e
renewed agreed none = none
renewed refused none = some ownership_lost
renewed unreachable none = some renewal_failed

abbrev pub assert_owned : Option LockError → Result LockError (Option LockError)
assert_owned none = ok none
assert_owned (some e) = throw e

module _ (Thrown Value : Type 0) where
  pub data Failure : Type 0 where
    lock_error : LockError → Failure
    operation_error : Thrown → Failure

  pub data LockAttempt : Type 0 where
    not_acquired : LockAttempt
    acquired : Value → LockAttempt

  -- The operation, from its events to its own end; `assertOwned` follows it.
  unfoldable pub operate :
      List Event → Option LockError → Result Thrown Value → Result Failure Value
  operate [] (some e) (ok v) = throw (lock_error e)
  operate [] none (ok v) = ok v
  operate [] doubt (throw e) = throw (operation_error e)
  operate (renewal a ∷ rest) doubt end = operate rest (renewed a doubt) end
  operate (verify a ∷ rest) doubt end =
      let later = operate rest (renewed a doubt) end in
      elim (renewed a doubt) [ none ↦ later | some e ↦ throw (lock_error e) ]
  operate (assertion ∷ rest) doubt end =
      let later = operate rest doubt end in
      elim doubt [ none ↦ later | some e ↦ throw (lock_error e) ]

  abbrev pub is_key : Text → Bool
  is_key [] = false
  is_key (c ∷ t) = true

  abbrev pub attempted : Result Failure Value → Result Failure LockAttempt
  attempted (ok v) = ok (acquired v)
  attempted (throw e) = throw e

  abbrev pub after_set : Answer → List Event → Result Thrown Value → Result Failure LockAttempt
  after_set agreed events end = attempted (operate events none end)
  after_set refused events end = ok not_acquired
  after_set unreachable events end = throw (lock_error no_answer)

  abbrev pub is_invalid : Text → ℕ → Bool
  is_invalid key ttl = not (is_key key) || ltb ttl 1000 || not (leb ttl 9007199254740991)

  -- `tryWithLock`; a release that fails is only logged.
  unfoldable pub try_with_lock :
      Text → ℕ → Answer → List Event → Result Thrown Value → Result Failure LockAttempt
  try_with_lock key ttl set events end =
      if is_invalid key ttl then throw (lock_error invalid_lock) else after_set set events end

  abbrev pub value_of : Result Failure LockAttempt → Result Failure Value
  value_of (ok (acquired v)) = ok v
  value_of (ok not_acquired) = throw (lock_error lock_held)
  value_of (throw e) = throw e

  -- `withNamedLock`.
  unfoldable pub with_named_lock :
      Text → ℕ → Answer → List Event → Result Thrown Value → Result Failure Value
  with_named_lock key ttl set events end = value_of (try_with_lock key ttl set events end)

  -- `withLock`, on the key of the core configuration.
  unfoldable pub with_lock : ℕ → Answer → List Event → Result Thrown Value → Result Failure Value
  with_lock ttl set events end =
      value_of (try_with_lock (codes "overvpn:core:apply:lock") ttl set events end)
