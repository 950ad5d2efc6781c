-- ===== src/Accounting/Parse.antt =====
-- `parse_nonnegative_int64` reads back what `to_text` prints, and nothing else.
use over_vpn.Base.{
  ℕ, zero, suc, ◌+◌, ◌-◌, ◌*◌, ◌/◌, ◌%◌, ◌<◌, ◌≡◌, refl, sym, ap, ◌∙◌, ◌↔◌, Bool, true, false, ◌&&◌,
  [], ◌∷◌, ◌++◌, Text, all, arith, ltb, leb, Bool-cases, inl, inr, ℤ, pos, negsuc, ◌≤ℤ◌, NonNeg,
  some,
}
use mathlib.Core.Path.{ap₂}
use mathlib.Core.List.{append_assoc, append-nil}
use over_vpn.Accounting.{
  is_digit, is_decimal, value_from, digits_from, digits, parse_nonnegative_int64, to_text,
  max_signed_bigint,
}
use over_vpn.Accounting.Decimal.{value_from-append, digits_small, digits_large}

value_from-digits_from : (f n : ℕ) → n < f → value_from 0 (digits_from f n) ≡ n
unfolding digits_from
value_from-digits_from zero n h = absurd (omega arith)
value_from-digits_from (suc f) n h = elim (Bool-cases (ltb n 10)) [
  | inl small ↦ rw small (omega arith)
  | inr large ↦ rw large (
      rw (value_from-append 0 (digits_from f (n / 10)) ((b'0' + n % 10) ∷ []))
        (rw (value_from-digits_from f (n / 10) (ground arith)) (omega arith)))
]

pub value_from-digits : (n : ℕ) → value_from 0 (digits n) ≡ n
unfolding digits
value_from-digits n = value_from-digits_from (suc n) n (omega arith)

-- A text of digits whose first is not 0.
abbrev leads : Text → Bool
leads [] = false
leads (c ∷ s) = leb b'1' c && leb c b'9' && all is_digit s

all-concat :
    (s : Text) (d : ℕ)
    → all is_digit s ≡ true
    → is_digit d ≡ true
    → all is_digit (s ++ d ∷ []) ≡ true
all-concat [] d h k = ground arith
all-concat (c ∷ s) d h k = ground (arith, all-concat s d)

leads-concat : (s : Text) (d : ℕ) → leads s ≡ true → is_digit d ≡ true → leads (s ++ d ∷ []) ≡ true
leads-concat [] d h k = cc
leads-concat (c ∷ s) d h k = ground (arith, all-concat s d)

leads-digits_from : (f n : ℕ) → n < f → 0 < n → leads (digits_from f n) ≡ true
unfolding digits_from
leads-digits_from zero n h p = absurd (omega arith)
leads-digits_from (suc f) n h p = elim (Bool-cases (ltb n 10)) [
  | inl small ↦ rw small (ground arith)
  | inr large ↦ rw large (
      leads-concat (digits_from f (n / 10)) (b'0' + n % 10)
        (leads-digits_from f (n / 10) (ground arith) (ground arith)) (ground arith))
]

is_decimal_of_leads : (s : Text) → leads s ≡ true → is_decimal s ≡ true
is_decimal_of_leads [] h = cc
is_decimal_of_leads (c ∷ []) h = ground arith
is_decimal_of_leads (c ∷ d ∷ s) h = h

pub is_decimal-digits : (n : ℕ) → is_decimal (digits n) ≡ true
unfolding digits digits_from
is_decimal-digits zero = refl
is_decimal-digits (suc n) =
    is_decimal_of_leads (digits_from (suc (suc n)) (suc n))
      (leads-digits_from (suc (suc n)) (suc n) (omega arith) (omega arith))

pub digits_shift :
    (acc d : ℕ) → 0 < acc → d < 10 → digits (acc * 10 + d) ≡ digits acc ++ (b'0' + d) ∷ []
digits_shift acc d p h =
    let quotient : (acc * 10 + d) / 10 ≡ acc = omega arith in
    let rest : (acc * 10 + d) % 10 ≡ d = omega arith in
    digits_large (acc * 10 + d) (omega arith)
    ∙ ap₂ (λ q r. digits q ++ (b'0' + r) ∷ []) quotient rest

-- Reading more digits onto a positive number prints them behind it.
digits-value_from :
    (acc : ℕ) (s : Text)
    → 0 < acc
    → all is_digit s ≡ true
    → digits (value_from acc s) ≡ digits acc ++ s
digits-value_from acc [] p h = sym (append-nil _)
digits-value_from acc (c ∷ s) p h =
    let back : b'0' + (c - b'0') ≡ c = ground arith in
    digits-value_from (acc * 10 + (c - b'0')) s (omega arith) (ground arith)
    ∙ ap (λ t. t ++ s) (digits_shift acc (c - b'0') p (ground arith))
    ∙ append_assoc (digits acc) ((b'0' + (c - b'0')) ∷ []) s
    ∙ ap (λ d. digits acc ++ d ∷ s) back

digits-value_of_is_decimal : (s : Text) → is_decimal s ≡ true → digits (value_from 0 s) ≡ s
digits-value_of_is_decimal [] h = cc
digits-value_of_is_decimal (c ∷ []) h =
    let back : b'0' + (0 * 10 + (c - b'0')) ≡ c = ground arith in
    digits_small (0 * 10 + (c - b'0')) (ground arith) ∙ ap (λ d. d ∷ []) back
digits-value_of_is_decimal (c ∷ d ∷ s) h =
    let back : b'0' + (0 * 10 + (c - b'0')) ≡ c = ground arith in
    digits-value_from (0 * 10 + (c - b'0')) (d ∷ s) (ground arith) (ground arith)
    ∙ ap (λ t. t ++ d ∷ s) (digits_small (0 * 10 + (c - b'0')) (ground arith))
    ∙ ap (λ e. e ∷ d ∷ s) back

parse-to_text :
    (v : ℤ) → NonNeg v → v ≤ℤ max_signed_bigint → parse_nonnegative_int64 (to_text v) ≡ some v
unfolding parse_nonnegative_int64 to_text
parse-to_text (pos n) p h = rw (is_decimal-digits n, value_from-digits n) (ground arith)
parse-to_text (negsuc n) p h = absurd (omega arith)

to_text-parse :
    (s : Text) (v : ℤ)
    → parse_nonnegative_int64 s ≡ some v
    → NonNeg v × (v ≤ℤ max_signed_bigint) × (to_text v ≡ s)
unfolding parse_nonnegative_int64 to_text
to_text-parse s v h =
    let decimal : is_decimal s ≡ true = ground arith in
    let small : pos (value_from 0 s) ≤ℤ max_signed_bigint = ground arith in
    let value : v ≡ pos (value_from 0 s) = ground arith in
    rw value (refl, small, digits-value_of_is_decimal s decimal)

-- A counter text is read as a number exactly when the number is not negative, fits a signed 64-bit
-- integer, and has that text as its canonical decimal text.
pub parse_nonnegative_int64_iff :
    (s : Text) (v : ℤ)
    → (parse_nonnegative_int64 s ≡ some v) ↔ (NonNeg v × (v ≤ℤ max_signed_bigint) × (to_text v ≡ s))
parse_nonnegative_int64_iff s v = (to_text-parse s v, λ h. rw (← h.2) (parse-to_text v h.0 h.1))
