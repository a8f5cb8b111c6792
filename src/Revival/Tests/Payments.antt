-- ===== src/Revival/Tests/Payments.antt =====
-- Tests of the theorems on the collection, the monitor and the batch.
use revival_integration.Base.{
  ℕ, ◌+◌, ◌*◌, ◌<◌, ◌≡◌, refl, Option, none, some, List, [], ◌∷◌, String, pos, arith,
}
use revival_integration.Stdlib.Duration.{day}
use revival_integration.Stdlib.Calendar.{year_of_day, is_leap}
use revival_integration.Stdlib.Calendar.Civil.{
  month_index, first_of_month, month_start, month_of_day, days_before_year, days_before_month,
  month_of_year_day, add_months, shifted,
}
use revival_integration.Revival.State.{RevivalStatus, InstallmentMonitorInput}
use revival_integration.Revival.Signal.{InstallmentPaymentSignal}
use revival_integration.Revival.Maturity.{validate_maturity_date_constraint, last_due_date}
use revival_integration.Revival.Case.{Case, Event, clear_recoverable_workflow_error}
use revival_integration.Revival.Loop.Approvals.{IsApprovedBy}
use revival_integration.Revival.Collection.{
  CollectionOutcome, collect_first, start_monitor, monitor_input, first_paid,
  no_pending_installments,
}
use revival_integration.Revival.Monitor.{
  Monitor, MonitorEvent, MonitorOutcome, installment_due, installment_monitor_workflow,
}
use revival_integration.Revival.Monitor.Order.{
  processed, defaults, InOrder, installment_monitor_workflow-InOrder,
}
use revival_integration.Revival.Monitor.Payments.{payments, installment_monitor_workflow-payments}
use revival_integration.Revival.Monitor.DueDates.{last_installment_before_maturity}
use revival_integration.Revival.Batch.{BatchInstallmentResult, BatchCall, BatchOutcome}
use revival_integration.Revival.Tests.{beginning, hourly, env_at, approval, case_at}

abbrev monitored : InstallmentMonitorInput
monitored = record {
  request_id = "request-1";
  next_due_date = beginning + 26 * day;
  number_of_installments = pos 3;
  start_installment_no = pos 0;
}

abbrev paid : InstallmentPaymentSignal
paid = record { payment_date = beginning; amount = pos 100; payment_mode = "CASH" }

installment_monitor_workflow-InOrder_example : InOrder (pos 3) (
    installment_monitor_workflow hourly
      (λ _. none)
      monitored
      (MonitorEvent.payment paid ∷ MonitorEvent.fell_due ∷ []))
installment_monitor_workflow-InOrder_example =
    installment_monitor_workflow-InOrder hourly (λ _. none) monitored
      (MonitorEvent.payment paid ∷ MonitorEvent.fell_due ∷ [])

abbrev database_down : ℕ → Option String
database_down _ = some "database is down"

installment_monitor_workflow-payments_example :
    (m : Monitor) × (installment_monitor_workflow hourly database_down monitored
        (payments (paid ∷ paid ∷ []))
      ≡ MonitorOutcome.all_done m)
    × (processed m.calls ≡ 3 ∷ 2 ∷ [])
    × (defaults m.calls ≡ [])
    × (m.current_expected_installment ≡ 2)
installment_monitor_workflow-payments_example =
    installment_monitor_workflow-payments hourly database_down monitored 3 (paid ∷ paid ∷ []) refl
      refl (λ i h. cc)

-- Approved at two events before the last.
abbrev approved : Case
approved =
    let c = case_at RevivalStatus.approved in
    record c {
      state = record c.state {
        sla_start_date = some beginning;
        sla_end_date = some (beginning + 60 * day);
      };
      events = Event.timer_fired ∷ Event.timer_fired ∷ [];
    }

approved-IsApprovedBy : IsApprovedBy (env_at hourly) approval approved
unfolding IsApprovedBy validate_maturity_date_constraint last_due_date month_index first_of_month
    month_start month_of_day days_before_year days_before_month month_of_year_day add_months shifted
    year_of_day is_leap
approved-IsApprovedBy = (refl, refl, refl, refl, refl, refl, refl)

early : hourly 0 < first_of_month (month_index (hourly 0)) + 28 * day
unfolding month_index first_of_month month_start month_of_day days_before_year days_before_month
    month_of_year_day year_of_day is_leap
early = omega arith

abbrev collected_case : CollectionOutcome → Case
collected_case (CollectionOutcome.completed c) = c
collected_case (CollectionOutcome.panicked c) = c

last_installment_before_maturity_example :
    month_index (installment_due (monitor_input (env_at hourly) beginning approved).next_due_date 3)
    < month_index approved.state.maturity_date
unfolding collect_first start_monitor monitor_input first_paid no_pending_installments
    clear_recoverable_workflow_error
last_installment_before_maturity_example =
    last_installment_before_maturity (env_at hourly) approval approved 1
      {e = collected_case (collect_first (env_at hourly) approved)}
      {input = monitor_input (env_at hourly) beginning (first_paid approved)} approved-IsApprovedBy
      refl refl early refl refl

abbrev batch_result : BatchOutcome → BatchInstallmentResult
batch_result (BatchOutcome.returned r _) = r
batch_result (BatchOutcome.batch_failed _ _) = record {
  total_submitted = 0;
  successful = 0;
  failed = 0;
  results = [];
}

abbrev batch_calls : BatchOutcome → List BatchCall
batch_calls (BatchOutcome.returned _ calls) = calls
batch_calls (BatchOutcome.batch_failed _ calls) = calls
