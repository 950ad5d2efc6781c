-- ===== src/DailyUsage/Drained/Room.antt =====
-- Where the totals fit the columns, no sum of a transaction is refused.
use mathlib.Core.Path.{subst}
use over_vpn.Base.{
  ℕ, zero, suc, Bool, true, false, List, [], ◌∷◌, take, Text, All, ◌≡◌, arith, ok, ◌≤ℤ◌, NonNeg,
  +ℤ_parts,
}
use over_vpn.Schema.{Bytes, add_bytes, add_bytes_right_comm, zero_add_bytes}
use over_vpn.Accounting.{checked_byte_sum, max_signed_bigint}
use over_vpn.DailyUsage.{LedgerRow, UsageRow, checked_bytes, is_of, increment}
use over_vpn.DailyUsage.Batch.{drop}
use over_vpn.DailyUsage.Conservation.{when, usage_of, deltas_of, falls_on}

-- No direction is negative; no direction leaves a signed 64-bit integer.
abbrev pub Good : Bytes → Type 0
Good b = NonNeg b.upload × NonNeg b.download

abbrev pub Small : Bytes → Type 0
Small b = (b.upload ≤ℤ max_signed_bigint) × (b.download ≤ℤ max_signed_bigint)

abbrev pub AllGood : List UsageRow → Type 0
AllGood = All (λ g. Good g.bytes)

abbrev pub AllGoodDeltas : List LedgerRow → Type 0
AllGoodDeltas = All (λ d. Good d.bytes)

pub Small-left : (a b : Bytes) → Good b → Small (add_bytes a b) → Small a
unfolding add_bytes
Small-left a b g s = ground (arith, +ℤ_parts a.upload b.upload, +ℤ_parts a.download b.download)

pub Good-add : (a b : Bytes) → Good a → Good b → Good (add_bytes a b)
unfolding add_bytes
Good-add a b g h = ground (arith, +ℤ_parts a.upload b.upload, +ℤ_parts a.download b.download)

Good-when : (t : Bool) (b : Bytes) → Good b → Good (when t b)
Good-when true b g = g
Good-when false b g = ground arith

pub checked_bytes_total :
    (a b : Bytes) → Good a → Good b → Small (add_bytes a b) → checked_bytes a b ≡ ok (add_bytes a b)
unfolding checked_bytes checked_byte_sum add_bytes
checked_bytes_total a b g h s = ground arith

pub increment_total : (a b : Bytes) → Small (add_bytes a b) → increment a b ≡ ok (add_bytes a b)
unfolding increment add_bytes
increment_total a b s = ground arith

pub usage_of-Good : (u : Text) (d : ℕ) (gs : List UsageRow) → AllGood gs → Good (usage_of u d gs)
unfolding usage_of
usage_of-Good u d [] h = ground arith
usage_of-Good u d (g ∷ gs) (k, h) =
    Good-add _ _ (Good-when (is_of u d g) g.bytes k) (usage_of-Good u d gs h)

pub deltas_of-Good :
    (u : Text) (d : ℕ) (ds : List LedgerRow) → AllGoodDeltas ds → Good (deltas_of u d ds)
unfolding deltas_of
deltas_of-Good u d [] h = ground arith
deltas_of-Good u d (x ∷ ds) (k, h) =
    Good-add _ _ (Good-when (falls_on u d x) x.bytes k) (deltas_of-Good u d ds h)

pub Good-take : (n : ℕ) (ds : List LedgerRow) → AllGoodDeltas ds → AllGoodDeltas (take n ds)
Good-take zero ds h = tt
Good-take (suc n) [] h = tt
Good-take (suc n) (x ∷ ds) (k, h) = (k, Good-take n ds h)

pub Good-drop : (n : ℕ) (ds : List LedgerRow) → AllGoodDeltas ds → AllGoodDeltas (drop n ds)
Good-drop zero ds h = h
Good-drop (suc n) [] h = tt
Good-drop (suc n) (x ∷ ds) (k, h) = Good-drop n ds h

-- The room that a table has for a user and a day is the room of its row.
pub room_here :
    (u : Text) (d : ℕ) (g : UsageRow) (gs : List UsageRow) (b : Bytes)
    → AllGood gs
    → is_of u d g ≡ true
    → Small (add_bytes (usage_of u d (g ∷ gs)) b)
    → Small (add_bytes g.bytes b)
unfolding usage_of
room_here u d g gs b h hit s =
    Small-left (add_bytes g.bytes b) (usage_of u d gs) (usage_of-Good u d gs h) (
      subst Small (add_bytes_right_comm g.bytes (usage_of u d gs) b)
        (subst (λ t. Small (add_bytes (add_bytes (when t g.bytes) (usage_of u d gs)) b)) hit s))

pub room_after :
    (u : Text) (d : ℕ) (g : UsageRow) (gs : List UsageRow) (b : Bytes)
    → is_of u d g ≡ false
    → Small (add_bytes (usage_of u d (g ∷ gs)) b)
    → Small (add_bytes (usage_of u d gs) b)
unfolding usage_of
room_after u d g gs b miss s =
    subst (λ x. Small (add_bytes x b)) (zero_add_bytes (usage_of u d gs))
      (subst (λ t. Small (add_bytes (add_bytes (when t g.bytes) (usage_of u d gs)) b)) miss s)
