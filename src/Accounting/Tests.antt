-- ===== src/Accounting/Tests.antt =====
-- Runs of the accounting functions, and the theorems at concrete inputs.
use over_vpn.Base.{
  ◌≡◌, refl, ◌↔◌, [], ◌∷◌, ◌++◌, none, some, Text, codes, arith, pos, negsuc, NonNeg, ◌≤ℤ◌, ◌-ℤ◌,
  ◌≤◌, pos_part,
}
use over_vpn.Accounting.{CursorState, computed, parse_nonnegative_int64, to_text, max_signed_bigint}
use over_vpn.Accounting.Delta.{IsSample, compute_traffic_delta-NonNeg, accepted_of_IsSample}
use over_vpn.Accounting.Parse.{parse_nonnegative_int64_iff}
use over_vpn.Accounting.Sample.{sample_key-injective, HasNoNul}
use over_vpn.Accounting.Billing.{traffic, restart, poll, run, start, step, billed-le-true}
use over_vpn.Accounting.Billing.Exact.{billed-eq-true}

abbrev plain : Text → Text
plain s = s

abbrev alice : Text
alice = codes "alice"

abbrev seen : CursorState
seen = record {
  last_upload_bytes = pos 10;
  last_download_bytes = pos 20;
  accounting_epoch = pos 0;
  generation = 2;
}

parses : parse_nonnegative_int64 (codes "9223372036854775807") ≡ some max_signed_bigint
unfolding parse_nonnegative_int64
parses = refl

leading_zero : parse_nonnegative_int64 (codes "01") ≡ none
unfolding parse_nonnegative_int64
leading_zero = refl

too_large : parse_nonnegative_int64 (codes "9223372036854775808") ≡ none
unfolding parse_nonnegative_int64
too_large = refl

prints : to_text (negsuc 41) ≡ codes "-42"
unfolding to_text
prints = refl

grows : (computed plain alice (pos 0) (pos 15) (pos 29) (some seen)).download_delta ≡ pos 9
unfolding computed ◌-ℤ◌
grows = refl

key_is_hashed :
    (computed plain alice (pos 0) (pos 15) (pos 29) (some seen)).sample_key
    ≡ codes "alice" ++ 0 ∷ codes "0" ++ 0 ∷ codes "2" ++ 0 ∷ codes "15" ++ 0 ∷ codes "29"
unfolding computed
key_is_hashed = refl

parse_nonnegative_int64_iff_example :
    (parse_nonnegative_int64 (codes "7") ≡ some (pos 7))
    ↔ (NonNeg (pos 7) × (pos 7 ≤ℤ max_signed_bigint) × (to_text (pos 7) ≡ codes "7"))
parse_nonnegative_int64_iff_example = parse_nonnegative_int64_iff (codes "7") (pos 7)

fits : IsSample (pos 0) (pos 4) (pos 7)
fits = omega arith

compute_traffic_delta-NonNeg_example :
    let r = computed plain alice (pos 0) (pos 4) (pos 7) (some seen) in
    NonNeg r.upload_delta × NonNeg r.download_delta
compute_traffic_delta-NonNeg_example =
    compute_traffic_delta-NonNeg plain alice (pos 0) (pos 4) (pos 7) (some seen) _
      (accepted_of_IsSample plain alice (pos 0) (pos 4) (pos 7) (some seen) fits)

alice_key : HasNoNul alice
alice_key = omega arith

sample_key-injective_example :
    let r = computed plain alice (pos 0) (pos 4) (pos 7) (some seen) in
    (alice ≡ alice)
    × (pos 0 ≡ pos 0)
    × (r.generation ≡ r.generation)
    × (pos 4 ≡ pos 4)
    × (pos 7 ≡ pos 7)
sample_key-injective_example =
    sample_key-injective plain alice alice (pos 0) (pos 0) (pos 4) (pos 4) (pos 7) (pos 7)
      (some seen) (some seen) _ _ (λ s t e. e) alice_key alice_key
      (accepted_of_IsSample plain alice (pos 0) (pos 4) (pos 7) (some seen) fits)
      (accepted_of_IsSample plain alice (pos 0) (pos 4) (pos 7) (some seen) fits) refl

billed-le-true_example :
    let m =
      run plain alice
        (pos 0)
        (start plain alice (pos 0) 5 6 0)
        (traffic 10 20 ∷ poll ∷ restart ∷ traffic 3 4 ∷ poll ∷ []) in
    (pos_part m.billed_upload ≤ m.true_upload)
    × (pos_part m.billed_download ≤ m.true_download)
    × NonNeg m.billed_upload
    × NonNeg m.billed_download
billed-le-true_example =
    billed-le-true plain alice (pos 0) 5 6 0
      (traffic 10 20 ∷ poll ∷ restart ∷ traffic 3 4 ∷ poll ∷ [])

billed-eq-true_example :
    let n =
      step plain alice
        (pos 0)
        (run plain alice (pos 0) (start plain alice (pos 0) 5 6 0) (traffic 10 20 ∷ []))
        poll in
    (n.billed_upload ≡ pos n.true_upload) × (n.billed_download ≡ pos n.true_download)
unfolding run step start
billed-eq-true_example =
    billed-eq-true plain alice (pos 0) 5 6 0 (traffic 10 20 ∷ []) refl ((λ e. cc), tt) (omega arith)
