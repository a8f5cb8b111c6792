-- ===== src/Revival/Maturity/Months.antt =====
-- The constraint, read in months.
use revival_integration.Base.{ℕ, suc, ◌+◌, ◌*◌, ◌<◌, ◌≡◌, ◌↔◌, none, ℤ, pos, arith}
use revival_integration.Stdlib.Duration.{Time, day}
use revival_integration.Stdlib.Calendar.Civil.{month_index, first_of_month}
use revival_integration.Stdlib.Calendar.Months.{
  month_index-lt, month_index-le, month_index-add_months, month_index-first_of_month,
}
use revival_integration.Revival.Maturity.{last_due_date, validate_maturity_date_constraint}

-- The constraint holds just when the last installment falls due in a month before that of maturity.
pub validate_maturity_date_constraint-none :
    (maturity : Time) (n : ℤ) (first : Time)
    → (validate_maturity_date_constraint maturity n first ≡ none)
      ↔ (month_index (last_due_date first n) < month_index maturity)
unfolding validate_maturity_date_constraint
validate_maturity_date_constraint-none maturity n first =
    let last = last_due_date first n in
    (
      (λ h. ground (arith, month_index-le {s = last} {t = maturity})),
      (λ h. ground (arith, month_index-lt {s = last} {t = maturity})),
    )

-- Counted from one of the first 28 days of a month, n installments run to the (n - 1)-th month
-- after it.
pub month_index-last_due_date :
    (first : Time) (n : ℕ)
    → first < first_of_month (month_index first) + 28 * day
    → month_index (last_due_date first (pos (suc n))) ≡ month_index first + n
unfolding last_due_date
month_index-last_due_date first n h =
    ground
      (arith, month_index-add_months first n, month_index-first_of_month (month_index first + n))
