-- ===== src/RateLimit.antt =====
-- apps/api/src/subscriptions/subscription-rate-limit.ts: the counters of a window on the Redis
-- server, by address and by token, and the guard in front of the subscriptions. The server runs a
-- script as one step.
pub mod Window
mod Tests
use over_vpn.Base.{
  ℕ, suc, ◌+◌, ◌-◌, ◌*◌, ◌/◌, Bool, true, false, not, ◌&&◌, ◌||◌, List, [], ◌∷◌, ◌++◌, Option, none,
  some, Text, codes, get, put, if◌then◌else◌, ltb, leb, min, max, ◌==◌,
}

-- A counter with the instant at which it expires.
pub record Counter : Type 0 where
  pub count : ℕ
  pub expires : ℕ

-- The counter as the server sees it: an expired one is gone.
unfoldable pub live : ℕ → Option Counter → Option Counter
live now none = none
live now (some c) = if ltb now c.expires then some c else none

-- `INCR`, and `PEXPIRE` for a first hit.
unfoldable pub hit : ℕ → ℕ → Option Counter → Counter
hit now window none = record { count = 1; expires = now + window }
hit now window (some c) = record c { count = c.count + 1 }

pub record Decision : Type 0 where
  pub allowed : Bool
  pub remaining : ℕ
  pub reset_ms : ℕ

-- What the script returns; `tonumber(ARGV[1]) - ip_count` is cut off at 0.
abbrev pub decide : ℕ → ℕ → ℕ → Counter → Counter → Decision
decide now ip_limit token_limit ip token = record {
  allowed = leb ip.count ip_limit && leb token.count token_limit;
  remaining = min (ip_limit - ip.count) (token_limit - token.count);
  reset_ms = max (ip.expires - now) (token.expires - now);
}

abbrev pub counter_at : ℕ → Text → List (Text × Counter) → Option Counter
counter_at now key db = live now (get key db)

-- `SUBSCRIPTION_RATE_LIMIT_SCRIPT`.
unfoldable pub run_script :
    ℕ → ℕ → ℕ → ℕ → Text → Text → List (Text × Counter) → Decision × List (Text × Counter)
run_script now ip_limit token_limit window ip_key token_key db =
    let ip = hit now window (counter_at now ip_key db) in
    let db1 = put ip_key ip db in
    let token = hit now window (counter_at now token_key db1) in
    (decide now ip_limit token_limit ip token, put token_key token db1)

pub record RateLimitResult : Type 0 where
  pub allowed : Bool
  pub limit : ℕ
  pub remaining : ℕ
  pub reset_seconds : ℕ

module _ (sha256 : Text → Text) where
  abbrev pub ip_key_of : Text → Text
  ip_key_of ip = codes "sub-rate:v1:ip:" ++ sha256 ip

  abbrev pub token_key_of : Text → Text
  token_key_of token = codes "sub-rate:v1:token:" ++ sha256 token

  -- `SubscriptionRateLimitStore.consume`; `Math.ceil` of a number of milliseconds.
  unfoldable pub consume :
      ℕ → ℕ → ℕ → ℕ → Text → Text → List (Text × Counter) → RateLimitResult × List (Text × Counter)
  consume now ip_limit token_limit window ip token db =
      let (d, db') =
        run_script now ip_limit token_limit window (ip_key_of ip) (token_key_of token) db in
      (
        record {
          allowed = d.allowed;
          limit = min ip_limit token_limit;
          remaining = d.remaining;
          reset_seconds = max 1 ((d.reset_ms + 999) / 1000);
        },
        db',
      )

  -- The requests of one address, each with its instant and token; how many pass.
  unfoldable pub passed : ℕ → ℕ → ℕ → Text → List (ℕ × Text) → List (Text × Counter) → ℕ
  passed ip_limit token_limit window ip [] db = 0
  passed ip_limit token_limit window ip ((now, token) ∷ rest) db =
      let (r, db') = consume now ip_limit token_limit window ip token db in
      (if r.allowed then 1 else 0) + passed ip_limit token_limit window ip rest db'

-- The headers that every decided request gets; the absolute reset is the clock's business.
pub record Headers : Type 0 where
  pub limit : ℕ
  pub remaining : ℕ
  pub reset_seconds : ℕ

pub data GuardOutcome : Type 0 where
  passes : Headers → GuardOutcome
  rate_limited : (headers : Headers) (retry_after : ℕ) → GuardOutcome
  subscription_unavailable : (retry_after : ℕ) → GuardOutcome

-- `SubscriptionRateLimitGuard.canActivate`; a store that fails gives no result.
abbrev pub can_activate : Option RateLimitResult → GuardOutcome
can_activate none = subscription_unavailable 5
can_activate (some r) =
    let headers : Headers = record {
      limit = r.limit;
      remaining = r.remaining;
      reset_seconds = r.reset_seconds;
    } in
    if r.allowed then passes headers else rate_limited headers r.reset_seconds
