-- ===== src/Revival/Loop/Waiting.antt =====
-- The case in which WorkflowLoop waits for a signal.
use revival_integration.Base.{ℕ, ◌≡◌, false, none, arith}
use revival_integration.Revival.State.{RevivalStatus}
use revival_integration.Revival.Case.{
  RevivalEnv, Case, blocked, retry, return_case_to_indexer, clear_recoverable_workflow_error,
}
use revival_integration.Revival.DataEntry.{
  wait_for_data_entry, process_data_entry, save_data_entry, adjust_suspense,
}
use revival_integration.Revival.QualityCheck.{
  wait_for_quality_check, process_quality_check, save_quality_check,
}
use revival_integration.Revival.Approval.{
  wait_for_approval, process_approval, decide, decide_approved, redirect, reject, approve,
  save_approval,
}
use revival_integration.Revival.Loop.{round, round_at, still_waiting, workflow_loop}
use revival_integration.Revival.Loop.Induction.{while_waiting}

module _ (env : RevivalEnv) (c : Case) {d : Case} where
  wait_for_data_entry-blocked :
      wait_for_data_entry env c ≡ blocked d → clear_recoverable_workflow_error c ≡ d
  unfolding wait_for_data_entry process_data_entry save_data_entry adjust_suspense retry
      return_case_to_indexer
  wait_for_data_entry-blocked h = ground arith

  wait_for_quality_check-blocked :
      wait_for_quality_check env c ≡ blocked d → clear_recoverable_workflow_error c ≡ d
  unfolding wait_for_quality_check process_quality_check save_quality_check retry
      return_case_to_indexer
  wait_for_quality_check-blocked h = ground arith

  wait_for_approval-blocked :
      wait_for_approval env c ≡ blocked d → clear_recoverable_workflow_error c ≡ d
  unfolding wait_for_approval process_approval decide decide_approved redirect reject approve
      save_approval retry return_case_to_indexer
  wait_for_approval-blocked h = ground arith

  round_at-blocked :
      (s : RevivalStatus) → round_at env s c ≡ blocked d → clear_recoverable_workflow_error c ≡ d
  unfolding round_at
  round_at-blocked RevivalStatus.waiting_for_data_entry h = wait_for_data_entry-blocked h
  round_at-blocked RevivalStatus.waiting_for_qc h = wait_for_quality_check-blocked h
  round_at-blocked RevivalStatus.approval_pending h = wait_for_approval-blocked h
  round_at-blocked _ h = absurd (ground arith)

  pub round-blocked : round env c ≡ blocked d → clear_recoverable_workflow_error c ≡ d
  unfolding round
  round-blocked h = round_at-blocked _ h

-- While the loop waits, no error is recorded: what a failed activity left is gone before the first
-- query can read it.
pub workflow_loop-recoverable_error :
    (env : RevivalEnv) (fuel : ℕ) (c : Case) {d : Case}
    → workflow_loop env fuel c ≡ still_waiting d
    → (d.state.recoverable_error ≡ false)
      × (d.state.last_error_message ≡ "")
      × (d.state.last_error_stage ≡ none)
      × (d.state.last_error_at ≡ none)
unfolding clear_recoverable_workflow_error
workflow_loop-recoverable_error env fuel c {d} h =
    while_waiting env {P = λ _. ℕ}
      {R = λ e.
        (e.state.recoverable_error ≡ false)
        × (e.state.last_error_message ≡ "")
        × (e.state.last_error_stage ≡ none)
        × (e.state.last_error_at ≡ none)}
      (λ _ _ n _. n) (λ e f _ r. ground (arith, round-blocked env e {d = f} r)) fuel c {d = d} 0 h
