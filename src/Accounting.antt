-- ===== src/Accounting.antt =====
-- apps/api/src/workers/traffic-accounting.ts: parsing a byte counter, the checked sum, and the
-- delta that one sample of a counter adds to a user's usage. A `bigint` is an integer, a text is
-- the list of its code units, and the hash function of the platform is the parameter `sha256`.
pub mod Decimal
pub mod Parse
pub mod Delta
pub mod Billing
pub mod Sample
pub mod Sum
mod Tests
use over_vpn.Base.{
  ℕ, zero, suc, ◌+◌, ◌-◌, ◌*◌, ◌/◌, ◌%◌, ◌^◌, Bool, true, false, not, ◌&&◌, ◌||◌, List, [], ◌∷◌,
  ◌++◌, Option, none, some, Text, if◌then◌else◌, ltb, leb, ◌==◌, all, is_some, ℤ, pos, negsuc,
  ltb_ℤ, leb_ℤ, eqb_ℤ, ◌+ℤ◌, ◌-ℤ◌, Result, ok, throw,
}

abbrev pub max_signed_bigint : ℤ
max_signed_bigint = pos (2 ^ 63 - 1)

pub data TrafficError : Type 0 where
  exceeds_storage : TrafficError
  invalid_sample : TrafficError

pub record CursorState : Type 0 where
  pub last_upload_bytes : ℤ
  pub last_download_bytes : ℤ
  pub accounting_epoch : ℤ
  pub generation : ℕ

pub record DeltaComputation : Type 0 where
  pub baseline : Bool
  pub counter_reset : Bool
  pub upload_delta : ℤ
  pub download_delta : ℤ
  pub generation : ℕ
  pub sample_key : Text

-- `\d`
abbrev pub is_digit : ℕ → Bool
is_digit c = leb b'0' c && leb c b'9'

-- `/^(0|[1-9]\d*)$/`
abbrev pub is_decimal : Text → Bool
is_decimal [] = false
is_decimal (c ∷ []) = is_digit c
is_decimal (c ∷ d ∷ s) = leb b'1' c && leb c b'9' && all is_digit (d ∷ s)

-- `BigInt(value)` on a text of digits.
abbrev pub value_from : ℕ → Text → ℕ
value_from acc [] = acc
value_from acc (c ∷ s) = value_from (acc * 10 + (c - b'0')) s

unfoldable pub parse_nonnegative_int64 : Text → Option ℤ
parse_nonnegative_int64 value =
    if is_decimal value
    then if leb_ℤ (pos (value_from 0 value)) max_signed_bigint
      then some (pos (value_from 0 value))
      else none
    else none

unfoldable pub checked_byte_sum : ℤ → ℤ → Result TrafficError ℤ
checked_byte_sum left right =
    if ltb_ℤ left (pos 0) || ltb_ℤ right (pos 0) || ltb_ℤ max_signed_bigint (left +ℤ right)
    then throw exceeds_storage
    else ok (left +ℤ right)

-- `toString()` of a number that is not negative: its decimal digits. The fuel is the number.
pub digits_from : ℕ → ℕ → Text
digits_from zero n = []
digits_from (suc fuel) n =
    let more = digits_from fuel (n / 10) ++ (b'0' + n % 10) ∷ [] in
    if ltb n 10 then (b'0' + n) ∷ [] else more

unfoldable pub digits : ℕ → Text
unfolding digits_from
digits n = digits_from (suc n) n

unfoldable pub to_text : ℤ → Text
unfolding digits
to_text (pos n) = digits n
to_text (negsuc n) = b'-' ∷ digits (suc n)

-- `[…].join('\0')`
abbrev pub join_nul : List Text → Text
join_nul [] = []
join_nul (s ∷ []) = s
join_nul (s ∷ t ∷ rest) = s ++ 0 ∷ join_nul (t ∷ rest)

-- What is hashed into the key of a sample.
unfoldable pub sample_material : Text → ℤ → ℕ → ℤ → ℤ → Text
unfolding to_text
sample_material stats_key epoch generation upload download =
    join_nul (
      stats_key ∷ to_text epoch ∷ to_text (pos generation) ∷ to_text upload ∷ to_text download ∷ [])

abbrev pub epoch_changed : Option CursorState → ℤ → Bool
epoch_changed none epoch = false
epoch_changed (some c) epoch = not (eqb_ℤ c.accounting_epoch epoch)

abbrev pub is_counter_reset : Option CursorState → ℤ → ℤ → ℤ → Bool
is_counter_reset none epoch upload download = false
is_counter_reset (some c) epoch upload download =
    not (epoch_changed (some c) epoch)
    && (ltb_ℤ upload c.last_upload_bytes || ltb_ℤ download c.last_download_bytes)

abbrev pub next_generation : Option CursorState → Bool → Bool → ℕ
next_generation none changed reset = 0
next_generation (some c) changed reset = c.generation + (if changed || reset then 1 else 0)

-- The bytes of one direction: `last` is what the cursor holds of it.
abbrev pub direction_delta : Bool → Bool → ℤ → Option ℤ → ℤ
direction_delta baseline reset now none = pos 0
direction_delta baseline reset now (some last) =
    if baseline then pos 0 else if reset then now else now -ℤ last

abbrev pub last_upload : Option CursorState → Option ℤ
last_upload none = none
last_upload (some c) = some c.last_upload_bytes

abbrev pub last_download : Option CursorState → Option ℤ
last_download none = none
last_download (some c) = some c.last_download_bytes

-- The guard of a sample.
abbrev pub is_invalid_sample : ℤ → ℤ → ℤ → Bool
is_invalid_sample epoch upload download =
    ltb_ℤ epoch (pos 0)
    || ltb_ℤ upload (pos 0)
    || ltb_ℤ download (pos 0)
    || ltb_ℤ max_signed_bigint upload
    || ltb_ℤ max_signed_bigint download

module _ (sha256 : Text → Text) (stats_key : Text) (epoch upload download : ℤ) where
  -- What an accepted sample is answered with.
  unfoldable pub computed : Option CursorState → DeltaComputation
  unfolding sample_material
  computed cursor =
      let changed = epoch_changed cursor epoch in
      let baseline = not (is_some cursor) || changed in
      let reset = is_counter_reset cursor epoch upload download in
      let generation = next_generation cursor changed reset in
      record {
        baseline = baseline;
        counter_reset = reset;
        upload_delta = direction_delta baseline reset upload (last_upload cursor);
        download_delta = direction_delta baseline reset download (last_download cursor);
        generation = generation;
        sample_key = sha256 (sample_material stats_key epoch generation upload download);
      }

  unfoldable pub compute_traffic_delta : Option CursorState → Result TrafficError DeltaComputation
  unfolding computed
  compute_traffic_delta cursor =
      if is_invalid_sample epoch upload download then throw invalid_sample else ok (computed cursor)
