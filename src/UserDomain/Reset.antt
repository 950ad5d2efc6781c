-- ===== src/UserDomain/Reset.antt =====
-- The next reset is the end of the calendar period of an instant.
use over_vpn.Base.{ap, ◌≢◌, refl, ℕ, suc, ◌+◌, ◌*◌, ◌/◌, ◌≤◌, ◌<◌, ◌≡◌, arith, some, ◌↔◌}
use over_vpn.Schema.{ResetStrategy, no_reset, daily, monthly, yearly}
use over_vpn.Calendar.{civil, utc, day_ms, year_length}
use over_vpn.Calendar.Walk.{before}
use over_vpn.Calendar.Laws.{
  days_before, in_day_iff, in_month_iff, in_year_iff, utc-month, civil_lem,
}
use over_vpn.UserDomain.{calculate_next_reset_at}

-- Two instants lie in the same calendar period of a strategy.
abbrev pub InSamePeriod : ResetStrategy → ℕ → ℕ → Type 0
InSamePeriod no_reset a b = Unit
InSamePeriod daily a b =
    ((civil a).year ≡ (civil b).year)
    × ((civil a).month ≡ (civil b).month)
    × ((civil a).day ≡ (civil b).day)
InSamePeriod monthly a b = ((civil a).year ≡ (civil b).year) × ((civil a).month ≡ (civil b).month)
InSamePeriod yearly a b = (civil a).year ≡ (civil b).year

-- What the next reset is, in days.
next_reset_cases :
    (strategy : ResetStrategy) (from next : ℕ)
    → calculate_next_reset_at strategy from ≡ some next
    → (days : ℕ) × (next ≡ days * day_ms)
      × ((t : ℕ) → from ≤ t → (t / day_ms < days) ↔ InSamePeriod strategy from t)
unfolding calculate_next_reset_at before
next_reset_cases no_reset from next e = cc
next_reset_cases daily from next e =
    let (valid, same) = civil_lem from in
    let ends : utc (civil from).year (civil from).month ((civil from).day + 1) ≡ next = cc in
    let start = utc-month (civil from).year (civil from).month ((civil from).day + 1) in
    (
      suc (from / day_ms),
      omega (arith, ends, start (omega (arith, valid.0)), same),
      in_day_iff from,
    )
next_reset_cases monthly from next e =
    let month = (civil from).month in
    let ends : utc (civil from).year (month + 1) 0 ≡ next = cc in
    let start = utc-month (civil from).year (month + 1) 0 in
    let later : month + 1 ≡ suc month = omega arith in
    (
      days_before (civil from).year (suc month),
      omega (
        arith,
        ends,
        start (omega (arith, (civil_lem from).0.0)),
        ap (days_before (civil from).year) later,
      ),
      in_month_iff from,
    )
next_reset_cases yearly from next e =
    let year = (civil from).year in
    let ends : utc (year + 1) 0 0 ≡ next = cc in
    let later : year + 1 ≡ suc year = omega arith in
    (
      before year_length (suc year),
      omega (arith, ends, utc-month (year + 1) 0 0 (omega arith), ap (before year_length) later),
      in_year_iff from,
    )

-- A later instant comes before the next reset exactly when it lies in the same calendar day, month
-- or year of UTC, as the strategy has it.
pub next_reset_iff :
    (strategy : ResetStrategy) (from next t : ℕ)
    → calculate_next_reset_at strategy from ≡ some next
    → from ≤ t
    → (t < next) ↔ InSamePeriod strategy from t
next_reset_iff strategy from next t e ordered =
    let (days, ends, inside) = next_reset_cases strategy from next e in
    (
      λ soon. (inside t ordered).0 (omega (arith, ends)),
      λ same. omega (arith, ends, (inside t ordered).1 same),
    )

-- A schedule's next reset exists and is later.
pub next_reset_after :
    (strategy : ResetStrategy) (from : ℕ)
    → (strategy ≢ no_reset)
    → (next : ℕ) × (calculate_next_reset_at strategy from ≡ some next) × (from < next)
unfolding calculate_next_reset_at
next_reset_after no_reset from h = absurd (h refl)
next_reset_after daily from h =
    (_, refl, (next_reset_iff daily from _ from refl (omega arith)).1 (refl, refl, refl))
next_reset_after monthly from h =
    (_, refl, (next_reset_iff monthly from _ from refl (omega arith)).1 (refl, refl))
next_reset_after yearly from h =
    (_, refl, (next_reset_iff yearly from _ from refl (omega arith)).1 refl)
