-- ===== src/Stdlib/Calendar/Months.antt =====
-- Every day lies in the month that its index names, and months follow one another.
use revival_integration.Base.{
  ℕ, zero, suc, ◌+◌, ◌-◌, ◌*◌, ◌/◌, ◌%◌, ◌≤◌, ◌<◌, ◌≡◌, ap, sym, ◌∙◌, ◌⊎◌, inl, inr, Bool, arith,
  if◌then◌else◌,
}
use revival_integration.Base.{pos}
use revival_integration.Stdlib.Duration.{Time, day}
use revival_integration.Stdlib.Calendar.{is_leap, year_of_day}
use revival_integration.Stdlib.Calendar.Civil.{
  days_before_year, days_before_month, month_of_year_day, month_start, month_of_day, month_index,
  first_of_month, add_months,
}

year_length : ℕ → ℕ
year_length y = if is_leap y then 366 else 365

days_before_year-suc : (y : ℕ) → days_before_year (suc y) ≡ days_before_year y + year_length (suc y)
unfolding days_before_year year_length is_leap
days_before_year-suc y = ground arith

year_of_day_bounds :
    (d : ℕ)
    → (days_before_year (year_of_day d).0 + (year_of_day d).1 ≡ d)
      × ((year_of_day d).1 < year_length ((year_of_day d).0 + 1))
unfolding days_before_year year_of_day year_length is_leap
year_of_day_bounds d = (ground arith, ground arith)

month_of_year_day_bounds :
    (leap : Bool) (d : ℕ)
    → d < (if leap then 366 else 365)
    → (days_before_month leap (month_of_year_day leap d) ≤ d)
      × (d < days_before_month leap (month_of_year_day leap d + 1))
      × (month_of_year_day leap d < 12)
unfolding days_before_month month_of_year_day
month_of_year_day_bounds leap d h = (ground arith, ground arith, ground arith)

month_start_of :
    (y r : ℕ)
    → r < 12
    → month_start (12 * y + r) ≡ days_before_year y + days_before_month (is_leap (y + 1)) r
unfolding month_start
month_start_of y r h =
    let year : (12 * y + r) / 12 ≡ y = omega arith in
    let month : (12 * y + r) % 12 ≡ r = omega arith in rw (year, month)

leb_cases : (m n : ℕ) → (m ≤ n) ⊎ (n < m)
leb_cases m n = ground arith

december :
    (y : ℕ)
    → days_before_year (suc y) + days_before_month (is_leap (suc y + 1)) 0
      ≡ days_before_year y + days_before_month (is_leap (y + 1)) 12
unfolding days_before_month year_length
december y = ground (arith, days_before_year-suc y)

-- The month behind December is the next January.
month_start_after :
    (y r : ℕ)
    → r < 12
    → month_start (12 * y + r + 1)
      ≡ days_before_year y + days_before_month (is_leap (y + 1)) (r + 1)
month_start_after y r h = elim (leb_cases r 10) [
  | inl small ↦
      let next : 12 * y + r + 1 ≡ 12 * y + (r + 1) = omega arith in
      ap month_start next ∙ month_start_of y (r + 1) (omega arith)
  | inr large ↦
      let last : r ≡ 11 = omega arith in
      let next : 12 * y + r + 1 ≡ 12 * suc y + 0 = omega arith in
      ap month_start next
      ∙ month_start_of (suc y) 0 (omega arith)
      ∙ december y
      ∙ ap (λ k. days_before_year y + days_before_month (is_leap (y + 1)) (k + 1)) (sym last)
]

days_before_month-suc :
    (leap : Bool) (r : ℕ) → r < 12 → days_before_month leap r + 28 ≤ days_before_month leap (r + 1)
unfolding days_before_month
days_before_month-suc leap r h = ground arith

-- Each month has at least 28 days.
pub month_start-suc : (m : ℕ) → month_start m + 28 ≤ month_start (m + 1)
month_start-suc m =
    let y = m / 12 in
    let r = m % 12 in
    let split : m ≡ 12 * y + r = omega arith in
    omega (
      arith,
      ap month_start split,
      ap (λ k. month_start (k + 1)) split,
      month_start_of y r (omega arith),
      month_start_after y r (omega arith),
      days_before_month-suc (is_leap (y + 1)) r (omega arith),
    )

month_start_add : (m k : ℕ) → month_start m ≤ month_start (m + k)
month_start_add m zero = let same : m + 0 ≡ m = omega arith in omega (arith, ap month_start same)
month_start_add m (suc k) =
    let next : m + suc k ≡ m + k + 1 = omega arith in
    omega (arith, month_start_add m k, month_start-suc (m + k), ap month_start next)

pub month_start-le : {m n : ℕ} → m ≤ n → month_start m ≤ month_start n
month_start-le {m} {n} h =
    let split : m + (n - m) ≡ n = omega arith in
    omega (arith, month_start_add m (n - m), ap month_start split)

-- A day lies in its month.
pub month_of_day_bounds :
    (d : ℕ) → (month_start (month_of_day d) ≤ d) × (d < month_start (month_of_day d + 1))
unfolding month_of_day year_length
month_of_day_bounds d =
    let y = (year_of_day d).0 in
    let leap = is_leap (y + 1) in
    let (is_day, in_year) = year_of_day_bounds d in
    let (lower, upper, is_month) = month_of_year_day_bounds leap (year_of_day d).1 in_year in
    let r = month_of_year_day leap (year_of_day d).1 in
    (
      omega (arith, is_day, lower, month_start_of y r is_month),
      omega (arith, is_day, upper, month_start_after y r is_month),
    )

-- No other month holds it.
pub month_of_day_unique :
    (d m : ℕ) → month_start m ≤ d → d < month_start (m + 1) → month_of_day d ≡ m
month_of_day_unique d m lower upper =
    let (starts, ends) = month_of_day_bounds d in
    elim (leb_cases (month_of_day d) m) [
      | inl before ↦ elim (leb_cases m (month_of_day d)) [
        | inl after ↦ omega arith
        | inr earlier ↦
            let next : month_of_day d + 1 ≤ m = omega arith in
            absurd (omega (arith, month_start-le next))
      ]
      | inr later ↦
          let next : m + 1 ≤ month_of_day d = omega arith in
          absurd (omega (arith, month_start-le next))
    ]

pub month_of_day-le : {d e : ℕ} → d ≤ e → month_of_day d ≤ month_of_day e
month_of_day-le {d} {e} h = elim (leb_cases (month_of_day d) (month_of_day e)) [
  | inl before ↦ before
  | inr later ↦
      let next : month_of_day e + 1 ≤ month_of_day d = omega arith in
      absurd
        (omega (arith, month_start-le next, (month_of_day_bounds d).0, (month_of_day_bounds e).1))
]

pub month_index-le : {s t : Time} → s ≤ t → month_index s ≤ month_index t
unfolding month_index
month_index-le {s} {t} h = month_of_day-le (omega arith)

pub month_index-lt : {s t : Time} → month_index s < month_index t → s < t
month_index-lt {s} {t} h = elim (leb_cases t s) [
  | inl before ↦ absurd (omega (arith, month_index-le before))
  | inr later ↦ later
]

pub month_index-first_of_month : (m : ℕ) → month_index (first_of_month m) ≡ m
unfolding month_index first_of_month
month_index-first_of_month m =
    month_of_day_unique _ m (omega arith) (omega (arith, month_start-suc m))

-- A time lies within its month.
pub month_index_bounds :
    (t : Time) → (first_of_month (month_index t) ≤ t) × (t < first_of_month (month_index t + 1))
unfolding month_index first_of_month
month_index_bounds t =
    let (lower, upper) = month_of_day_bounds (t / day) in (omega arith, omega arith)

pub month_index_unique :
    (t : Time) (m : ℕ) → first_of_month m ≤ t → t < first_of_month (m + 1) → month_index t ≡ m
unfolding month_index first_of_month
month_index_unique t m lower upper = month_of_day_unique (t / day) m (omega arith) (omega arith)

-- On the first 28 days of a month, `AddDate(0, n, 0)` reaches the n-th month after it.
pub month_index-add_months :
    (t : Time) (n : ℕ)
    → t < first_of_month (month_index t) + 28 * day
    → month_index (add_months t (pos n)) ≡ month_index t + n
unfolding add_months first_of_month
month_index-add_months t n h =
    let m = month_index t in
    let lower = (month_index_bounds t).0 in
    month_index_unique _ (m + n) (omega arith) (omega (arith, month_start-suc (m + n)))
