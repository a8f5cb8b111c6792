-- ===== src/Stdlib/Calendar/Civil.antt =====
-- Time.Year, Time.Month, Time.AddDate(0, n, 0) and time.Date(year, month, 1, …) in UTC. A month is
-- counted from January of year 1, so that December and the January after it are neighbours, as they
-- are to time.Date; a time before that January reads as its start.
use revival_integration.Base.{
  ℕ, suc, ◌+◌, ◌-◌, ◌*◌, ◌/◌, ◌%◌, ℤ, pos, negsuc, Bool, ltb, if◌then◌else◌,
}
use revival_integration.Stdlib.Duration.{Time, day}
use revival_integration.Stdlib.Calendar.{is_leap, year_of_day}

-- The days of the years before, given how many.
unfoldable pub days_before_year : ℕ → ℕ
days_before_year y = 365 * y + y / 4 - y / 100 + y / 400

-- daysBefore, for a month counted from 0.
unfoldable pub days_before_month : Bool → ℕ → ℕ
days_before_month leap m =
    let late = if leap then 1 else 0 in
    if ltb m 1
    then 0
    else if ltb m 2
    then 31
    else if ltb m 3
    then 59 + late
    else if ltb m 4
    then 90 + late
    else if ltb m 5
    then 120 + late
    else if ltb m 6
    then 151 + late
    else if ltb m 7
    then 181 + late
    else if ltb m 8
    then 212 + late
    else if ltb m 9
    then 243 + late
    else if ltb m 10
    then 273 + late
    else if ltb m 11
    then 304 + late
    else if ltb m 12
    then 334 + late
    else 365 + late

-- The month, from 0, in which a day of the year lies.
unfoldable pub month_of_year_day : Bool → ℕ → ℕ
month_of_year_day leap d =
    let late = if leap then 1 else 0 in
    if ltb d 31
    then 0
    else if ltb d (59 + late)
    then 1
    else if ltb d (90 + late)
    then 2
    else if ltb d (120 + late)
    then 3
    else if ltb d (151 + late)
    then 4
    else if ltb d (181 + late)
    then 5
    else if ltb d (212 + late)
    then 6
    else if ltb d (243 + late)
    then 7
    else if ltb d (273 + late)
    then 8
    else if ltb d (304 + late)
    then 9
    else if ltb d (334 + late)
    then 10
    else 11

-- The first day of a month.
unfoldable pub month_start : ℕ → ℕ
month_start m = days_before_year (m / 12) + days_before_month (is_leap (m / 12 + 1)) (m % 12)

unfoldable pub month_of_day : ℕ → ℕ
month_of_day d =
    let (before, yday) = year_of_day d in
    12 * before + month_of_year_day (is_leap (before + 1)) yday

-- `12 * (t.Year() - 1) + int(t.Month()) - 1`
unfoldable pub month_index : Time → ℕ
month_index t = month_of_day (t / day)

-- `time.Date(…, month, 1, 0, 0, 0, 0, time.UTC)`
unfoldable pub first_of_month : ℕ → Time
first_of_month m = month_start m * day

unfoldable pub shifted : ℕ → ℤ → ℕ
shifted m (pos n) = m + n
shifted m (negsuc n) = m - suc n

-- The day of the month goes along, and runs over into the next month where the month is shorter.
unfoldable pub add_months : Time → ℤ → Time
unfolding shifted
add_months t n = let m = month_index t in first_of_month (shifted m n) + (t - first_of_month m)
