-- ===== src/Accounting/Sample.antt =====
-- The key of a sample stands for the sample.
use over_vpn.Base.{
  ℕ, ◌≡◌, refl, sym, ap, ◌∙◌, ◌≢◌, true, [], ◌∷◌, ◌++◌, Option, Text, arith, ℤ, pos, negsuc, NonNeg,
  ok, All, all,
}
use over_vpn.Accounting.{
  CursorState, DeltaComputation, compute_traffic_delta, computed, digits, to_text, is_digit,
  is_decimal, value_from, sample_material,
}
use over_vpn.Accounting.Delta.{accepted, result_of_accepted}
use over_vpn.Accounting.Parse.{is_decimal-digits, value_from-digits}

-- No code unit is 0, which separates the parts of the hashed text.
abbrev pub HasNoNul : Text → Type 0
HasNoNul = All (λ c. c ≢ 0)

split_nul :
    (s s' t t' : Text) → HasNoNul s → HasNoNul s' → s ++ 0 ∷ t ≡ s' ++ 0 ∷ t' → (s ≡ s') × (t ≡ t')
split_nul [] [] t t' h k e = ground arith
split_nul [] (c ∷ s') t t' h k e = absurd (k.0 (ground arith))
split_nul (c ∷ s) [] t t' h k e = absurd (h.0 (ground arith))
split_nul (c ∷ s) (c' ∷ s') t t' h k e =
    let rest = split_nul s s' t t' h.1 k.1 (ground arith) in ground arith

HasNoNul-of_digits : (s : Text) → all is_digit s ≡ true → HasNoNul s
HasNoNul-of_digits [] h = tt
HasNoNul-of_digits (c ∷ s) h = (ground arith, HasNoNul-of_digits s (ground arith))

all_of_is_decimal : (s : Text) → is_decimal s ≡ true → all is_digit s ≡ true
all_of_is_decimal [] h = refl
all_of_is_decimal (c ∷ []) h = ground arith
all_of_is_decimal (c ∷ d ∷ s) h = ground arith

to_text-HasNoNul : (v : ℤ) → NonNeg v → HasNoNul (to_text v)
unfolding to_text
to_text-HasNoNul (pos n) h =
    HasNoNul-of_digits (digits n) (all_of_is_decimal (digits n) (is_decimal-digits n))
to_text-HasNoNul (negsuc n) h = absurd (omega arith)

digits-injective : (m n : ℕ) → digits m ≡ digits n → m ≡ n
digits-injective m n e = sym (value_from-digits m) ∙ ap (value_from 0) e ∙ value_from-digits n

to_text-injective : (v w : ℤ) → NonNeg v → NonNeg w → to_text v ≡ to_text w → v ≡ w
unfolding to_text
to_text-injective (pos m) (pos n) h k e = ap pos (digits-injective m n e)
to_text-injective (pos m) (negsuc n) h k e = absurd (omega arith)
to_text-injective (negsuc m) w h k e = absurd (omega arith)

sample_material-injective :
    (key key' : Text) (epoch epoch' : ℤ) (generation generation' : ℕ)
    (upload upload' download download' : ℤ)
    → HasNoNul key
    → HasNoNul key'
    → NonNeg epoch × NonNeg upload × NonNeg download
    → NonNeg epoch' × NonNeg upload' × NonNeg download'
    → sample_material key epoch generation upload download
      ≡ sample_material key' epoch' generation' upload' download'
    → (key ≡ key')
      × (epoch ≡ epoch')
      × (generation ≡ generation')
      × (upload ≡ upload')
      × (download ≡ download')
unfolding sample_material
sample_material-injective k k' e e' g g' u u' d d' h h' s s' same =
    let (a, r) = split_nul k k' _ _ h h' same in
    let (b, r) =
      split_nul (to_text e) (to_text e') _ _ (to_text-HasNoNul e s.0) (to_text-HasNoNul e' s'.0)
        r in
    let (c, r) =
      split_nul (to_text (pos g)) (to_text (pos g')) _ _ (to_text-HasNoNul (pos g) refl)
        (to_text-HasNoNul (pos g') refl) r in
    let (x, y) =
      split_nul (to_text u) (to_text u') _ _ (to_text-HasNoNul u s.1) (to_text-HasNoNul u' s'.1)
        r in
    (
      a,
      to_text-injective e e' s.0 s'.0 b,
      digits-injective g g' c,
      to_text-injective u u' s.1 s'.1 x,
      to_text-injective d d' s.2 s'.2 y,
    )

key_of :
    (sha256 : Text → Text) (key : Text) (epoch upload download : ℤ) (cursor : Option CursorState)
    (r : DeltaComputation)
    → compute_traffic_delta sha256 key epoch upload download cursor ≡ ok r
    → r.sample_key ≡ sha256 (sample_material key epoch r.generation upload download)
unfolding computed
key_of sha k e u d c r ran = let same = result_of_accepted sha k e u d c r ran in rw same refl

-- Where the hash is injective and the keys hold no NUL, two accepted samples with the same sample
-- key agree in their key, epoch, generation and both counters.
pub sample_key-injective :
    (sha256 : Text → Text) (key key' : Text) (epoch epoch' upload upload' download download' : ℤ)
    (cursor cursor' : Option CursorState) (r r' : DeltaComputation)
    → ((s t : Text) → sha256 s ≡ sha256 t → s ≡ t)
    → HasNoNul key
    → HasNoNul key'
    → compute_traffic_delta sha256 key epoch upload download cursor ≡ ok r
    → compute_traffic_delta sha256 key' epoch' upload' download' cursor' ≡ ok r'
    → r.sample_key ≡ r'.sample_key
    → (key ≡ key')
      × (epoch ≡ epoch')
      × (r.generation ≡ r'.generation)
      × (upload ≡ upload')
      × (download ≡ download')
sample_key-injective sha k k' e e' u u' d d' c c' r r' inj h h' ran ran' same =
    let s = accepted sha k e u d c r ran in
    let s' = accepted sha k' e' u' d' c' r' ran' in
    sample_material-injective k k' e e' r.generation r'.generation u u' d d' h h' (s.0, s.1, s.2)
      (s'.0, s'.1, s'.2)
      (inj _ _ (sym (key_of sha k e u d c r ran) ∙ same ∙ key_of sha k' e' u' d' c' r' ran'))
