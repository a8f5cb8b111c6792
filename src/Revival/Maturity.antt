-- ===== src/Revival/Maturity.antt =====
-- validateMaturityDateConstraint of workflow/revival_workflow.go (rule IR_4): the last installment
-- is due before the month of maturity.
pub mod Months
use revival_integration.Base.{
  zero, suc, Bool, true, false, Option, none, some, ℤ, pos, negsuc, ltb, ◌==◌, if◌then◌else◌,
}
use revival_integration.Stdlib.Duration.{Time}
use revival_integration.Stdlib.Calendar.Civil.{month_index, first_of_month, add_months}

-- The two errors: the date of the last installment, and the date of maturity.
pub data Violation : Type 0 where
  falls_after_maturity : Time → Time → Violation
  falls_in_maturity_month : Time → Time → Violation

-- `n - 1`
abbrev pub pred_int : ℤ → ℤ
pred_int (pos zero) = negsuc zero
pred_int (pos (suc n)) = pos n
pred_int (negsuc n) = negsuc (suc n)

-- `n > 1`
abbrev pub more_than_one : ℤ → Bool
more_than_one (pos n) = ltb 1 n
more_than_one (negsuc _) = false

-- lastDueDate
unfoldable pub last_due_date : Time → ℤ → Time
last_due_date first n =
    let due = add_months first (pred_int n) in
    if more_than_one n then first_of_month (month_index due) else due

-- The date of maturity comes from a DATE column and is midnight UTC, as the workflow's clock is UTC.
unfoldable pub validate_maturity_date_constraint : Time → ℤ → Time → Option Violation
validate_maturity_date_constraint maturity n first =
    let last = last_due_date first n in
    if ltb maturity last
    then some (Violation.falls_after_maturity last maturity)
    else if month_index last == month_index maturity
    then some (Violation.falls_in_maturity_month last maturity)
    else none
