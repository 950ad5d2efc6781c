-- ===== src/Calendar/Laws.antt =====
-- Where an instant lies in the calendar, and the calendar's functions as inverses.
use over_vpn.Base.{
  ℕ, zero, suc, ◌+◌, ◌*◌, ◌/◌, ◌%◌, ◌≤◌, ◌<◌, ◌≡◌, refl, ap, arith, inl, inr, Bool-cases, sym, ◌↔◌,
}
use over_vpn.Calendar.{day_ms, is_leap, year_length, month_length, Civil, civil, utc}
use over_vpn.Calendar.Walk.{before, walk, before_mono, walk_lem, period_unique, before_end_iff}
use native.Mathlib.Decide.{dec_lt}

-- A year's months fill it.
pub months_fill : (n : ℕ) → before (month_length (is_leap n)) 12 ≡ year_length n
unfolding before
months_fill n = elim (Bool-cases (is_leap n)) [ inl h ↦ rw h refl | inr h ↦ rw h refl ]

-- The days before a month of a year, since 1970.
abbrev pub days_before : ℕ → ℕ → ℕ
days_before y m = before year_length y + before (month_length (is_leap y)) m

-- A day of the calendar that exists.
abbrev pub IsValid : Civil → Type 0
IsValid c = (c.month < 12) × (c.day < month_length (is_leap c.year) c.month)

pub before-year : (y : ℕ) → y ≤ before year_length y
unfolding before
before-year zero = omega arith
before-year (suc y) = ground (arith, before-year y)

-- The position in its year of a day of a month.
pub in_year :
    (y m d : ℕ)
    → m < 12
    → d < month_length (is_leap y) m
    → before (month_length (is_leap y)) m + d < year_length y
unfolding before
in_year y m d h k =
    omega (arith, months_fill y, before_mono (month_length (is_leap y)) (suc m) 12 (omega arith))

pub civil_lem :
    (ms : ℕ) → let c = civil ms in IsValid c × (days_before c.year c.month + c.day ≡ ms / day_ms)
unfolding civil before
civil_lem ms =
    let (in_days, inside, _) =
      walk_lem year_length (suc (ms / day_ms)) 0 (ms / day_ms) (suc (ms / day_ms)) (omega arith)
        (omega (arith, before-year (suc (ms / day_ms)))) in
    let (y, rest) = walk year_length (suc (ms / day_ms)) 0 (ms / day_ms) in
    let (in_months, in_month, below) =
      walk_lem (month_length (is_leap y)) 12 0 rest 12 (omega arith)
        (omega (arith, months_fill y)) in
    ((below, in_month), omega (arith, in_days, in_months))

-- The day of an instant, by a day of the calendar that exists.
pub civil_unique :
    (c : Civil) (ms : ℕ)
    → IsValid c
    → days_before c.year c.month + c.day ≡ ms / day_ms
    → (c.year ≡ (civil ms).year) × (c.month ≡ (civil ms).month) × (c.day ≡ (civil ms).day)
civil_unique c ms valid same =
    let (valid', same') = civil_lem ms in
    let (years, days) =
      period_unique year_length c.year (civil ms).year
        (before (month_length (is_leap c.year)) c.month + c.day)
        (before (month_length (is_leap (civil ms).year)) (civil ms).month + (civil ms).day)
        (omega (arith, same, same')) (in_year c.year c.month c.day valid.0 valid.1)
        (in_year (civil ms).year (civil ms).month (civil ms).day valid'.0 valid'.1) in
    let lengths = ap (λ y. month_length (is_leap y) (civil ms).month) years in
    let starts = ap (λ y. before (month_length (is_leap y)) (civil ms).month) years in
    let (months, rest) =
      period_unique (month_length (is_leap c.year)) c.month (civil ms).month c.day (civil ms).day
        (omega (arith, days, starts)) valid.1 (omega (arith, valid'.1, lengths)) in
    (years, months, rest)

plus_one : (y : ℕ) → y + 1 ≡ suc y
plus_one y = omega arith

-- `utc` of a month up to the thirteenth, which is the next year's first.
pub utc-month : (y m d : ℕ) → m ≤ 12 → utc y m d ≡ (days_before y m + d) * day_ms
unfolding utc before
utc-month y m d h = elim (dec_lt m 12) [
  | yes p ↦
      let none_over : m / 12 ≡ 0 = omega arith in
      let same : m % 12 ≡ m = omega arith in
      let year : y + 0 ≡ y = omega arith in rw (none_over, same, year) refl
  | no q ↦
      let is_last : m ≡ 12 = omega arith in
      rw is_last (omega (arith, months_fill y, ap (before year_length) (plus_one y)))
]

-- `utc` and `civil` are inverse to each other up to the time of the day.
pub civil-utc :
    (c : Civil) (time : ℕ) → IsValid c → time < day_ms → civil (utc c.year c.month c.day + time) ≡ c
civil-utc c time valid h =
    let (years, months, days) =
      civil_unique c (utc c.year c.month c.day + time) valid
        (rw (utc-month c.year c.month c.day (omega arith)) (omega arith)) in
    λ i. record { year = sym years i; month = sym months i; day = sym days i }

pub utc-civil :
    (ms : ℕ)
    → let c = civil ms in (utc c.year c.month c.day ≤ ms) × (ms < utc c.year c.month c.day + day_ms)
utc-civil ms =
    let (valid, same) = civil_lem ms in
    rw (utc-month (civil ms).year (civil ms).month (civil ms).day (omega arith)) (omega arith)

-- The end of a year and of a month, as bounds on later instants.
pub in_year_iff :
    (from t : ℕ)
    → from ≤ t
    → (t / day_ms < before year_length (suc (civil from).year))
      ↔ ((civil from).year ≡ (civil t).year)
unfolding before
in_year_iff from t ordered =
    let (valid, same) = civil_lem from in
    let (valid', same') = civil_lem t in
    let h =
      before_end_iff year_length (civil from).year (civil t).year
        (before (month_length (is_leap (civil from).year)) (civil from).month + (civil from).day)
        (before (month_length (is_leap (civil t).year)) (civil t).month + (civil t).day)
        (omega (arith, same, same'))
        (in_year (civil from).year (civil from).month (civil from).day valid.0 valid.1)
        (in_year (civil t).year (civil t).month (civil t).day valid'.0 valid'.1) in
    (λ soon. h.0 (omega (arith, same')), λ years. omega (arith, same', h.1 years))

month_of_year_iff :
    (from t : ℕ)
    → from ≤ t
    → (civil from).year ≡ (civil t).year
    → (t / day_ms < days_before (civil from).year (suc (civil from).month))
      ↔ ((civil from).month ≡ (civil t).month)
unfolding before
month_of_year_iff from t ordered years =
    let (valid, same) = civil_lem from in
    let (valid', same') = civil_lem t in
    let starts = ap (before year_length) years in
    let months = ap (λ y. before (month_length (is_leap y)) (civil t).month) years in
    let lengths = ap (λ y. month_length (is_leap y) (civil t).month) years in
    let h =
      before_end_iff (month_length (is_leap (civil from).year)) (civil from).month (civil t).month
        (civil from).day (civil t).day (omega (arith, same, same', starts, months)) valid.1
        (omega (arith, valid'.1, lengths)) in
    (
      λ soon. h.0 (omega (arith, same', starts, months, soon)),
      λ equal. omega (arith, same', starts, months, h.1 equal),
    )

pub in_month_iff :
    (from t : ℕ)
    → from ≤ t
    → (t / day_ms < days_before (civil from).year (suc (civil from).month))
      ↔ (((civil from).year ≡ (civil t).year) × ((civil from).month ≡ (civil t).month))
unfolding before
in_month_iff from t ordered =
    let y = (civil from).year in
    let m = (civil from).month in
    (
      λ soon.
          let below = before_mono (month_length (is_leap y)) (suc m) 12 (civil_lem from).0.0 in
          let years = (in_year_iff from t ordered).0 (omega (arith, soon, below, months_fill y)) in
          (years, (month_of_year_iff from t ordered years).0 soon),
      λ (years, months). (month_of_year_iff from t ordered years).1 months,
    )

pub in_day_iff :
    (from t : ℕ)
    → from ≤ t
    → (t / day_ms < suc (from / day_ms)) ↔ (
        ((civil from).year ≡ (civil t).year)
        × ((civil from).month ≡ (civil t).month)
        × ((civil from).day ≡ (civil t).day))
in_day_iff from t ordered =
    let (valid, same) = civil_lem from in
    let (valid', same') = civil_lem t in
    (
      λ soon. civil_unique (civil from) t valid (omega (arith, same)),
      λ (years, months, days). omega (
        arith,
        same,
        same',
        days,
        ap (λ y. days_before y (civil from).month) years,
        ap (days_before (civil t).year) months,
      ),
    )
