-- ===== src/Stdlib/Calendar.antt =====
-- Time.AddDate(0, 12, 0) in UTC: the same day of the next year, where 29 February becomes 1 March.
pub mod Bounds
pub mod Civil
pub mod Months
use revival_integration.Base.{
  ℕ, ◌+◌, ◌-◌, ◌*◌, ◌/◌, ◌%◌, Bool, not, ◌&&◌, ◌||◌, ltb, ◌==◌, if◌then◌else◌,
}
use revival_integration.Stdlib.Duration.{Time, day}

unfoldable pub is_leap : ℕ → Bool
is_leap y = y % 4 == 0 && (not (y % 100 == 0) || y % 400 == 0)

abbrev cap3 : ℕ → ℕ
cap3 n = if ltb 3 n then 3 else n

-- The years before, and the day of the year from 0, of a day counted from 1 January of year 1,
-- by 400-year, 100-year, 4-year and 1-year blocks.
unfoldable pub year_of_day : ℕ → ℕ × ℕ
year_of_day d =
    let n400 = d / 146097 in
    let d400 = d % 146097 in
    let n100 = cap3 (d400 / 36524) in
    let d100 = d400 - n100 * 36524 in
    let n4 = d100 / 1461 in
    let d4 = d100 % 1461 in
    let n1 = cap3 (d4 / 365) in (400 * n400 + 100 * n100 + 4 * n4 + n1, d4 - n1 * 365)

-- The days from a date to the same date of the next year: the 29 February that lies between is
-- this year's if the date is before March, and the next year's if it is not.
pub days_to_anniversary : ℕ → ℕ
unfolding year_of_day is_leap
days_to_anniversary d =
    let (before, yday) = year_of_day d in
    let year = before + 1 in
    let february_ends = if is_leap year then 60 else 59 in
    if is_leap (if ltb yday february_ends then year else year + 1) then 366 else 365

unfoldable pub add_12_months : Time → Time
unfolding days_to_anniversary
add_12_months t = t + days_to_anniversary (t / day) * day
