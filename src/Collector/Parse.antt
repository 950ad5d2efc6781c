-- ===== src/Collector/Parse.antt =====
-- `parseCounters` of the traffic collector: which counters of a snapshot count, under which keys.
use over_vpn.Base.{
  sort, ℕ, zero, suc, ◌+◌, Bool, true, false, ◌&&◌, ◌||◌, List, [], ◌∷◌, map, Option, none, some,
  Text, text_eq, if◌then◌else◌, ltb, leb, ◌==◌, get, put, ℤ, pos, ◌+ℤ◌,
}
use over_vpn.Schema.{CoreEngine, engine_name}
use over_vpn.Accounting.{parse_nonnegative_int64, is_digit}
use over_vpn.Collector.{
  TrafficCounter, ParsedCounter, CounterScope, user, inbound, outbound, cursor_key,
}

-- `toLowerCase()` on the ASCII letters. No other character lowers to one that a uuid may hold.
abbrev pub to_lower_unit : ℕ → ℕ
to_lower_unit c = if leb b'A' c && leb c b'Z' then c + 32 else c

abbrev pub to_lower : Text → Text
to_lower = map to_lower_unit

-- The classes of the pattern, under its flag `i`.
abbrev pub is_hex : ℕ → Bool
is_hex c = is_digit c || (leb b'a' c && leb c b'f') || (leb b'A' c && leb c b'F')

abbrev pub is_version : ℕ → Bool
is_version c = leb b'1' c && leb c b'8'

abbrev pub is_variant : ℕ → Bool
is_variant c = c == b'8' || c == b'9' || c == b'a' || c == b'b' || c == b'A' || c == b'B'

abbrev pub is_hyphen : ℕ → Bool
is_hyphen c = c == b'-'

-- `class{n}` in front of a pattern.
abbrev pub repeat : ℕ → (ℕ → Bool) → List (ℕ → Bool) → List (ℕ → Bool)
repeat zero p rest = rest
repeat (suc n) p rest = p ∷ repeat n p rest

abbrev pub matches : List (ℕ → Bool) → Text → Bool
matches [] [] = true
matches [] (c ∷ s) = false
matches (p ∷ ps) [] = false
matches (p ∷ ps) (c ∷ s) = p c && matches ps s

-- `uuidPattern`
pub is_uuid : Text → Bool
is_uuid = matches (
    repeat 8 is_hex (
      is_hyphen
      ∷ repeat 4 is_hex (
          is_hyphen
          ∷ is_version
          ∷ repeat 3 is_hex
              (is_hyphen ∷ is_variant ∷ repeat 3 is_hex (is_hyphen ∷ repeat 12 is_hex [])))))

-- The variables of the loop.
pub record Parsed : Type 0 where
  pub parsed : List (Text × ParsedCounter)
  pub invalid_counters : ℕ
  pub counters_by_engine : List (Text × ℕ)

abbrev count_or_none : Option ℕ → ℕ
count_or_none none = 0
count_or_none (some n) = n

-- A valid counter of a user replaces one of the same key and engine.
accept : Text → CoreEngine → ℤ → ℤ → Parsed → Parsed
accept stats_key engine upload download p = record p {
  parsed =
      put (cursor_key stats_key engine)
        (record {
          stats_key = stats_key;
          engine = engine;
          upload_bytes = upload;
          download_bytes = download;
        })
        p.parsed;
  counters_by_engine =
      put (engine_name engine) (count_or_none (get (engine_name engine) p.counters_by_engine) + 1)
        p.counters_by_engine;
}

abbrev reject : Parsed → Parsed
reject p = record p { invalid_counters = p.invalid_counters + 1 }

parse_user_counter : Text → CoreEngine → Option ℤ → Option ℤ → Parsed → Parsed
unfolding accept
parse_user_counter stats_key engine none download p = reject p
parse_user_counter stats_key engine (some upload) none p = reject p
parse_user_counter stats_key engine (some upload) (some download) p =
    if is_uuid stats_key then accept stats_key engine upload download p else reject p

abbrev is_user_scope : CounterScope → Bool
is_user_scope user = true
is_user_scope inbound = false
is_user_scope outbound = false

pub parse_counter : TrafficCounter → Parsed → Parsed
unfolding parse_user_counter is_uuid
parse_counter c p =
    if is_user_scope c.scope
    then parse_user_counter (to_lower c.key) c.engine (parse_nonnegative_int64 c.uplink_bytes)
        (parse_nonnegative_int64 c.downlink_bytes) p
    else p

pub parse_from : List TrafficCounter → Parsed → Parsed
unfolding parse_counter
parse_from [] p = p
parse_from (c ∷ cs) p = parse_from cs (parse_counter c p)

abbrev pub nothing_parsed : Parsed
nothing_parsed = record { parsed = []; invalid_counters = 0; counters_by_engine = [] }

abbrev values {ℓ} : {V : Type ℓ} → List (Text × V) → List V
values = map (λ e. e.1)

abbrev sum_of : (ParsedCounter → ℤ) → List ParsedCounter → ℤ
sum_of f [] = pos 0
sum_of f (c ∷ cs) = f c +ℤ sum_of f cs

pub record ParsedCounters : Type 0 where
  pub counters : List ParsedCounter
  pub invalid_counters : ℕ
  pub absolute_upload : ℤ
  pub absolute_download : ℤ
  pub engines_polled : List Text

-- `<` on texts, by code units.
text_lt : Text → Text → Bool
text_lt [] [] = false
text_lt [] (d ∷ t) = true
text_lt (c ∷ s) [] = false
text_lt (c ∷ s) (d ∷ t) = ltb c d || ((c == d) && text_lt s t)

module _ (is_after : Text → Text → Bool) where
  -- The order of the counters, by the platform's collation.
  counter_after : ParsedCounter → ParsedCounter → Bool
  counter_after a b =
      if text_eq a.stats_key b.stats_key
      then is_after (engine_name a.engine) (engine_name b.engine)
      else is_after a.stats_key b.stats_key

  unfoldable pub parse_counters : List TrafficCounter → ParsedCounters
  unfolding parse_from counter_after text_lt
  parse_counters cs =
      let p = parse_from cs nothing_parsed in
      record {
        counters = sort counter_after (values p.parsed);
        invalid_counters = p.invalid_counters;
        absolute_upload = sum_of (λ c. c.upload_bytes) (values p.parsed);
        absolute_download = sum_of (λ c. c.download_bytes) (values p.parsed);
        engines_polled = sort (λ a b. text_lt b a) (map (λ e. e.0) p.counters_by_engine);
      }
