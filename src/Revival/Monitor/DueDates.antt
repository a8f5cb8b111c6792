-- ===== src/Revival/Monitor/DueDates.antt =====
-- When the installments fall due.
use revival_integration.Base.{
  ℕ, suc, ◌+◌, ◌-◌, ◌*◌, ◌<◌, ◌≡◌, pos, arith, length, ap, some, List, ◌∷◌, String,
}
use revival_integration.Stdlib.Duration.{Time, day}
use revival_integration.Stdlib.Calendar.Civil.{month_index, first_of_month}
use revival_integration.Stdlib.Calendar.Months.{month_index-first_of_month}
use revival_integration.Revival.Signal.{ApprovalDecisionSignal}
use revival_integration.Revival.Maturity.{last_due_date}
use revival_integration.Revival.Maturity.Months.{
  validate_maturity_date_constraint-none, month_index-last_due_date,
}
use revival_integration.Revival.State.{InstallmentMonitorInput}
use revival_integration.Revival.Case.{
  Event, RevivalEnv, Case, clear_recoverable_workflow_error, set_recoverable_workflow_error,
}
use revival_integration.Revival.Collection.{
  completed, collect_first, start_monitor, monitor_input, finalize_revival, first_paid,
}
use revival_integration.Revival.Loop.Approvals.{IsApprovedBy}
use revival_integration.Revival.Monitor.{installment_due}

second_due : (m n : ℕ) → n ≡ 2 → first_of_month m ≡ first_of_month (m + (n - 2))
second_due m n h = ap first_of_month (omega arith)

-- Where the second installment is due on the first of a month, the n-th is due on the first of the
-- (n - 2)-th month after it.
installment_due-months :
    (m n : ℕ) → installment_due (first_of_month m) n ≡ first_of_month (m + (n - 2))
unfolding installment_due
installment_due-months m n =
    let later = ap (λ k. first_of_month (k + (n - 2))) (month_index-first_of_month m) in
    ground (arith, later, second_due m n)

-- The monitor that the first collection starts has its first due date on the first of the month
-- after the SLA's start.
collect_first-next_due_date :
    (env : RevivalEnv) (d : Case) {e : Case} {start : Time} {id : String}
    {input : InstallmentMonitorInput} {rest : List Event}
    → d.state.sla_start_date ≡ some start
    → collect_first env d ≡ completed e
    → e.events ≡ Event.start_installment_monitor id input ∷ rest
    → input.next_due_date ≡ first_of_month (month_index start + 1)
unfolding collect_first start_monitor monitor_input finalize_revival first_paid
    clear_recoverable_workflow_error set_recoverable_workflow_error
collect_first-next_due_date env d starts collects newest = ground arith

-- For an approved request of at least two installments: where the approval is dated in the month in
-- which it was read, and it was read on one of that month's first 28 days, the monitor that the first collection starts has the last of the entry's installments fall due before
-- the month of maturity.
pub last_installment_before_maturity :
    (env : RevivalEnv) (sig : ApprovalDecisionSignal) (d : Case) (n : ℕ) {e : Case} {id : String}
    {input : InstallmentMonitorInput} {rest : List Event}
    → IsApprovedBy env sig d
    → d.data_entry.number_of_installments ≡ pos (suc (suc n))
    → month_index sig.approved_at ≡ month_index (env.clock (length d.events - 2))
    → env.clock (length d.events - 2)
      < first_of_month (month_index (env.clock (length d.events - 2))) + 28 * day
    → collect_first env d ≡ completed e
    → e.events ≡ Event.start_installment_monitor id input ∷ rest
    → month_index (installment_due input.next_due_date (suc (suc n)))
      < month_index d.state.maturity_date
unfolding IsApprovedBy
last_installment_before_maturity env sig d n {input = input} approval total same early collects
      newest =
    let decided = env.clock (length d.events - 2) in
    let (_, _, _, starts, _, constraint, _) = approval in
    let begins = collect_first-next_due_date env d starts collects newest in
    let from = ap (λ t. month_index (installment_due t (suc (suc n)))) begins in
    let allowed =
      (validate_maturity_date_constraint-none d.state.maturity_date
          d.data_entry.number_of_installments decided).0
        constraint in
    let last = month_index-last_due_date decided (suc n) early in
    let entered = ap (λ k. month_index (last_due_date decided k)) total in
    let due =
      ap month_index (installment_due-months (month_index sig.approved_at + 1) (suc (suc n))) in
    let first = month_index-first_of_month (month_index sig.approved_at + 1 + (suc (suc n) - 2)) in
    omega (arith, allowed, last, entered, due, first, same, from)
