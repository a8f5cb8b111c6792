-- ===== src/Revival/Tests/Loops.antt =====
-- Tests of the theorems on the workflow and its loop.
use revival_integration.Base.{◌≡◌, ◌≢◌, ◌↔◌, refl, none, inl, ◌<◌, arith, pos, []}
use revival_integration.Revival.State.{RevivalStatus}
use revival_integration.Revival.Case.{Case}
use revival_integration.Revival.Loop.{LoopOutcome, workflow_loop, goes_to_collection, out_of_fuel}
use revival_integration.Revival.Loop.Taken.{LastTaken}
use revival_integration.Revival.Loop.Checked.{IsPassed, workflow_loop-LastTaken}
use revival_integration.Revival.Loop.Moved.{IsMovedOn}
use revival_integration.Revival.Loop.Approvals.{
  EntryIsCurrent, IsApprovedBy, workflow_loop-IsApprovedBy,
}
use revival_integration.Revival.Workflow.{RevivalOutcome, installment_revival_workflow}
use revival_integration.Revival.Workflow.Collected.{installment_revival_workflow-spins}
use revival_integration.Revival.Loop.MonthChange.{sent_back, approved_in_another_month_spins}
use revival_integration.Revival.Maturity.Months.{validate_maturity_date_constraint-none}
use revival_integration.Stdlib.Calendar.{year_of_day, is_leap}
use revival_integration.Stdlib.Calendar.Civil.{
  month_index, first_of_month, month_start, month_of_day, days_before_year, days_before_month,
  month_of_year_day, add_months, shifted,
}
use revival_integration.Revival.Signal.{decode_into}
use revival_integration.Revival.Maturity.{validate_maturity_date_constraint, last_due_date}
use revival_integration.Revival.Case.{
  retry, return_case_to_indexer, clear_recoverable_workflow_error, set_recoverable_workflow_error,
}
use revival_integration.Revival.DataEntry.{
  wait_for_data_entry, process_data_entry, save_data_entry, adjust_suspense, data_entry_input,
}
use revival_integration.Revival.QualityCheck.{
  wait_for_quality_check, process_quality_check, save_quality_check,
}
use revival_integration.Revival.Approval.{
  wait_for_approval, process_approval, decide, decide_approved, approve, save_approval, redirect,
  reject, month_has_changed,
}
use revival_integration.Revival.Loop.{round, round_at}
use revival_integration.Revival.Workflow.{
  set_up, create_request, register, first_case, first_state, revival_request, after_loop,
}
use revival_integration.Revival.Tests.{
  hourly, monthly, maturity, beginning, env_at, index_input, entry, approval, arrivals, case_at,
}

abbrev final_case : RevivalOutcome → Case
final_case (RevivalOutcome.waits c) = c
final_case (RevivalOutcome.ends c) = c
final_case (RevivalOutcome.spins c) = c
final_case (RevivalOutcome.panics c) = c

abbrev loop_case : LoopOutcome → Case
loop_case (LoopOutcome.still_waiting c) = c
loop_case (LoopOutcome.ended c) = c
loop_case (LoopOutcome.goes_to_collection c) = c
loop_case (LoopOutcome.out_of_fuel c) = c

-- The data is entered in January, and each event takes a month.
abbrev late_case : Case
late_case = final_case (installment_revival_workflow (env_at monthly) 9 index_input arrivals)

late_run :
    installment_revival_workflow (env_at monthly) 9 index_input arrivals
    ≡ RevivalOutcome.spins late_case
unfolding installment_revival_workflow set_up create_request register first_case first_state
    revival_request after_loop round round_at wait_for_data_entry process_data_entry save_data_entry
    adjust_suspense data_entry_input wait_for_quality_check process_quality_check save_quality_check
    wait_for_approval process_approval decide decide_approved approve save_approval redirect reject
    month_has_changed retry return_case_to_indexer clear_recoverable_workflow_error
    set_recoverable_workflow_error decode_into workflow_loop validate_maturity_date_constraint
    last_due_date month_index first_of_month month_start month_of_day days_before_year
    days_before_month month_of_year_day add_months shifted year_of_day is_leap
late_run = refl

installment_revival_workflow-spins_example :
    (late_case.state.current_status ≡ RevivalStatus.data_entry_pending)
    × LastTaken (IsMovedOn (env_at monthly) late_case) arrivals.approvals late_case.approvals
installment_revival_workflow-spins_example =
    installment_revival_workflow-spins (env_at monthly) 9 index_input arrivals {d = late_case}
      (omega arith) late_run

abbrev entered : Case
entered = case_at RevivalStatus.waiting_for_data_entry

-- Within a day, all three desks agree.
abbrev collected : Case
collected = loop_case (workflow_loop (env_at hourly) 9 entered)

collected_run : workflow_loop (env_at hourly) 9 entered ≡ goes_to_collection collected
unfolding round round_at wait_for_data_entry process_data_entry save_data_entry adjust_suspense
    data_entry_input wait_for_quality_check process_quality_check save_quality_check
    wait_for_approval process_approval decide decide_approved approve save_approval redirect reject
    month_has_changed retry return_case_to_indexer clear_recoverable_workflow_error
    set_recoverable_workflow_error decode_into workflow_loop validate_maturity_date_constraint
    last_due_date month_index first_of_month month_start month_of_day days_before_year
    days_before_month month_of_year_day add_months shifted year_of_day is_leap
collected_run = refl

workflow_loop-IsApprovedBy_example :
    LastTaken
      (λ sig. IsApprovedBy (env_at hourly) sig collected)
      entered.approvals
      collected.approvals
unfolding EntryIsCurrent
workflow_loop-IsApprovedBy_example =
    workflow_loop-IsApprovedBy (env_at hourly) 9 entered {d = collected} (inl refl) collected_run

workflow_loop-LastTaken_example : LastTaken IsPassed entered.quality_checks collected.quality_checks
workflow_loop-LastTaken_example =
    workflow_loop-LastTaken (env_at hourly) 9 entered {d = collected} refl collected_run

abbrev ready_for_approval : Case
ready_for_approval = case_at RevivalStatus.approval_pending

differs : month_index entry.entered_at ≢ month_index (monthly 1)
unfolding month_index month_of_day month_of_year_day year_of_day is_leap
differs = omega arith

allowed : validate_maturity_date_constraint maturity (pos 3) (monthly 1) ≡ none
unfolding validate_maturity_date_constraint last_due_date month_index first_of_month month_start
    month_of_day days_before_year days_before_month month_of_year_day add_months shifted year_of_day
    is_leap
allowed = refl

approved_in_another_month_spins_example :
    workflow_loop (env_at monthly) 5 ready_for_approval
    ≡ out_of_fuel (sent_back ready_for_approval [])
approved_in_another_month_spins_example =
    approved_in_another_month_spins (env_at monthly) ready_for_approval approval [] 4 refl refl refl
      refl refl refl refl differs allowed refl

validate_maturity_date_constraint-none_example :
    (validate_maturity_date_constraint maturity (pos 3) beginning ≡ none)
    ↔ (month_index (last_due_date beginning (pos 3)) < month_index maturity)
validate_maturity_date_constraint-none_example =
    validate_maturity_date_constraint-none maturity (pos 3) beginning
