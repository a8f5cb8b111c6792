-- ===== src/Revival/Collection.antt =====
-- InstallmentRevivalWorkflow of workflow/revival_workflow.go after the approval: the 60-day timer
-- against the first collection, and the start of the installment monitor.
pub mod Single
use revival_integration.Base.{
  zero, suc, ◌+◌, ◌-◌, Bool, true, false, none, some, ◌<>◌, ℤ, pos, negsuc, leb, if◌then◌else◌,
  length,
}
use revival_integration.Stdlib.Duration.{Time}
use revival_integration.Stdlib.Calendar.Civil.{month_index, first_of_month}
use revival_integration.Revival.State.{RevivalStatus, InstallmentMonitorInput}
use revival_integration.Revival.Signal.{FirstCollectionCompleteSignal}
use revival_integration.Revival.Maturity.{pred_int}
use revival_integration.Revival.Case.{
  Event, RevivalEnv, Case, time_of, note, update, set_recoverable_workflow_error,
  clear_recoverable_workflow_error,
}

-- What the selector sees first.
pub data CollectionEvent : Type 0 where
  sla_timeout : CollectionEvent
  first_collection : FirstCollectionCompleteSignal → CollectionEvent

-- A nil `state.SLAStartDate` would panic.
pub data CollectionOutcome : Type 0 where
  completed : Case → CollectionOutcome
  panicked : Case → CollectionOutcome

-- `m - n`
unfoldable pub minus : ℤ → ℤ → ℤ
minus (pos m) (pos n) = if leb n m then pos (m - n) else negsuc (n - m - 1)
minus (pos m) (negsuc n) = pos (m + suc n)
minus (negsuc m) (pos n) = negsuc (m + n)
minus (negsuc m) (negsuc n) = if leb m n then pos (n - m) else negsuc (m - n - 1)

-- `n < 1`
abbrev pub below_one : ℤ → Bool
below_one (pos zero) = true
below_one (pos (suc _)) = false
below_one (negsuc _) = true

-- What the callback of firstCollectionChannel sets.
unfoldable pub first_paid : Case → Case
first_paid c =
    let received = note Event.received_first_collection c in
    update
      (record received.state {
        current_status = RevivalStatus.active;
        first_collection_done = true;
        installments_paid = 1;
      })
      received

module _ (env : RevivalEnv) where
  -- pendingInstallments
  unfoldable pub pending_installments : Case → ℤ
  pending_installments c =
      if c.suspense.has_suspense
      then minus c.state.number_of_installments
          (env.whole_quotient c.suspense.total_suspense_amount c.data_entry.installment_amount)
      else c.state.number_of_installments

  -- noPendingInstallments
  unfoldable pub no_pending_installments : Case → Bool
  no_pending_installments c =
      if c.suspense.has_suspense then below_one (pred_int (pending_installments c)) else false

  -- The callback of slaTimer.
  unfoldable pub expire_sla : Case → Case
  expire_sla c =
      let fired = note Event.timer_fired c in
      note (Event.terminate_revival c.state.request_id "60-day SLA expired") (
        update
          (record fired.state {
            current_status = RevivalStatus.terminated;
            sla_expired = true;
            completed_at = some (time_of env fired);
          })
          fired)

  -- FinalizeRevivalAfterFirstCollection
  unfoldable pub finalize_revival : Case → Case
  finalize_revival c =
      let asked = note (Event.finalize_revival_after_first_collection c.state.request_id) c in
      elim (env.acknowledged (length asked.events)) [
        | none ↦ clear_recoverable_workflow_error asked
        | some err ↦
            set_recoverable_workflow_error env RevivalStatus.active
              "Unable to finalize revival after first collection" err asked
      ]

  -- The input of the monitor: due from the first of the month after the approval.
  unfoldable pub monitor_input : Time → Case → InstallmentMonitorInput
  monitor_input start c = record {
    request_id = c.state.request_id;
    next_due_date = first_of_month (month_index start + 1);
    number_of_installments = pending_installments c;
    start_installment_no = pos 0;
  }

  -- ExecuteChildWorkflow, and the wait for the child to start.
  unfoldable pub start_monitor : Case → CollectionOutcome
  start_monitor c = elim c.state.sla_start_date [
    | none ↦ CollectionOutcome.panicked c
    | some start ↦
        let started =
          note
            (Event.start_installment_monitor ("installment-monitor-" <> c.state.request_id)
              (monitor_input start c))
            c in
        CollectionOutcome.completed (elim (env.child_started (length started.events)) [
          | none ↦ clear_recoverable_workflow_error started
          | some err ↦
              set_recoverable_workflow_error env RevivalStatus.active
                "Unable to start installment monitoring workflow" err started
        ])
  ]

  -- The callback of firstCollectionChannel and what follows the selector; the signal is only logged.
  unfoldable pub collect_first : Case → CollectionOutcome
  collect_first c =
      let paid = first_paid c in
      if no_pending_installments paid
      then CollectionOutcome.completed (finalize_revival paid)
      else start_monitor paid

  unfoldable pub collect : CollectionEvent → Case → CollectionOutcome
  collect CollectionEvent.sla_timeout c = CollectionOutcome.completed (expire_sla c)
  collect (CollectionEvent.first_collection _) c = collect_first c
