-- ===== src/Calendar.antt =====
-- The part of the language's `Date` that the program uses: the UTC calendar. A date is its number of
-- milliseconds since 1970; dates before 1970 are left out.
pub mod Walk
pub mod Laws
use over_vpn.Base.{
  ℕ, zero, suc, ◌+◌, ◌-◌, ◌*◌, ◌/◌, ◌%◌, ◌<◌, Bool, true, false, not, ◌&&◌, ◌||◌, if◌then◌else◌,
  ltb, ◌==◌,
}
use Walk.{before, walk}

abbrev pub day_ms : ℕ
day_ms = 86400000

-- Whether the year 1970 + n is a leap year.
abbrev pub is_leap : ℕ → Bool
is_leap n = ((1970 + n) % 4 == 0 && not ((1970 + n) % 100 == 0)) || ((1970 + n) % 400 == 0)

abbrev pub year_length : ℕ → ℕ
year_length n = if is_leap n then 366 else 365

-- Months are counted from 0.
abbrev pub month_length : Bool → ℕ → ℕ
month_length leap m =
    if m == 1
    then if leap then 29 else 28
    else if m == 3 || m == 5 || m == 8 || m == 10
    then 30
    else 31

-- A day of the calendar: the years since 1970, the month and the day of the month, from 0.
pub record Civil : Type 0 where
  pub year : ℕ
  pub month : ℕ
  pub day : ℕ

-- `getUTCFullYear()`, `getUTCMonth()` and `getUTCDate()`.
unfoldable pub civil : ℕ → Civil
civil ms =
    let (y, in_year) = walk year_length (suc (ms / day_ms)) 0 (ms / day_ms) in
    let (m, in_month) = walk (month_length (is_leap y)) 12 0 in_year in
    record { year = y; month = m; day = in_month }

-- `Date.UTC(year, month, day)`: months over 11 count into the following years.
unfoldable pub utc : ℕ → ℕ → ℕ → ℕ
utc year month day =
    let y = year + month / 12 in
    (before year_length y + before (month_length (is_leap y)) (month % 12) + day) * day_ms
