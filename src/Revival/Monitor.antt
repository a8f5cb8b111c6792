-- ===== src/Revival/Monitor.antt =====
-- InstallmentMonitorWorkflow of workflow/revival_workflow.go. It waits for each installment from the
-- second on; what its selector sees first in each round comes as a list. The counters start at 2
-- and grow by one with an event, so an `int` holds them.
pub mod Order
pub mod Payments
pub mod DueDates
use revival_integration.Base.{
  ℕ, zero, suc, ◌+◌, ◌-◌, ◌*◌, Bool, false, Option, none, some, List, [], ◌∷◌, String, ℤ, pos,
  negsuc, leb, ltb, ◌==◌, if◌then◌else◌, length,
}
use revival_integration.Stdlib.Duration.{Time, day}
use revival_integration.Stdlib.Calendar.Civil.{month_index, first_of_month}
use revival_integration.Revival.State.{InstallmentMonitorInput}
use revival_integration.Revival.Signal.{InstallmentPaymentSignal}

pub data MonitorEvent : Type 0 where
  payment : InstallmentPaymentSignal → MonitorEvent
  fell_due : MonitorEvent

-- What the workflow does, and the other things that move the clock on.
pub data MonitorCall : Type 0 where
  start_due_timer : ℕ → MonitorCall
  received_payment : ℕ → MonitorCall
  due_timer_fired : ℕ → MonitorCall
  process_installment : String → ℕ → ℤ → String → Time → MonitorCall
  handle_default : String → ℕ → MonitorCall

pub record Monitor : Type 0 where
  pub current_expected_installment : ℕ
  pub calls : List MonitorCall

pub data MonitorOutcome : Type 0 where
  awaits : ℕ → Monitor → MonitorOutcome
  all_done : Monitor → MonitorOutcome
  defaulted : ℕ → Monitor → MonitorOutcome

-- `n <= total`
abbrev pub at_most : ℕ → ℤ → Bool
at_most n (pos total) = leb n total
at_most n (negsuc _) = false

abbrev pub call : MonitorCall → Monitor → Monitor
call e m = record m { calls = e ∷ m.calls }

-- nextDue: the given date, then the first of each month after it.
unfoldable pub installment_due : Time → ℕ → Time
installment_due first n = if n == 2 then first else first_of_month (month_index first + (n - 2))

-- timerDuration. The day of grace is overwritten by the next assignment, and a date in the past
-- means a year.
unfoldable pub timer_duration : Time → Time → ℕ
timer_duration due now = if ltb due now then 365 * day else due - now

-- The workflow's clock, and the errors of its activities, by what it did before.
module _ (clock : ℕ → Time) (answers : ℕ → Option String) (input : InstallmentMonitorInput) where
  unfoldable pub watch_installment : ℕ → Monitor → Monitor
  watch_installment n m =
      call
        (MonitorCall.start_due_timer
          (timer_duration (installment_due input.next_due_date n) (clock (length m.calls))))
        m

  -- The callback of paymentChannel. Where the counter is not the installment's number, that is only
  -- logged.
  unfoldable pub take_payment : ℕ → InstallmentPaymentSignal → Monitor → Monitor
  take_payment n sig m =
      let processed =
        call
          (MonitorCall.process_installment input.request_id n sig.amount sig.payment_mode
            sig.payment_date)
          (call (MonitorCall.received_payment n) m) in
      elim (answers (length processed.calls)) [
        | none ↦ record processed {
          current_expected_installment = suc processed.current_expected_installment;
        }
        | some _ ↦ processed
      ]

  -- The callback of dueTimer; an error of the activity is only logged.
  unfoldable pub fall_due : ℕ → Monitor → Monitor
  fall_due n m =
      call (MonitorCall.handle_default input.request_id n) (call (MonitorCall.due_timer_fired n) m)

  -- The loop from an installment on.
  unfoldable pub monitor_from : ℕ → List MonitorEvent → Monitor → MonitorOutcome
  monitor_from n [] m =
      if at_most n input.number_of_installments
      then MonitorOutcome.awaits n (watch_installment n m)
      else MonitorOutcome.all_done m
  monitor_from n (MonitorEvent.payment sig ∷ events) m =
      let rest = monitor_from (suc n) events (take_payment n sig (watch_installment n m)) in
      if at_most n input.number_of_installments then rest else MonitorOutcome.all_done m
  monitor_from n (MonitorEvent.fell_due ∷ events) m =
      if at_most n input.number_of_installments
      then MonitorOutcome.defaulted n (fall_due n (watch_installment n m))
      else MonitorOutcome.all_done m

  unfoldable pub installment_monitor_workflow : List MonitorEvent → MonitorOutcome
  installment_monitor_workflow events =
      monitor_from 2 events (record { current_expected_installment = 2; calls = [] })
