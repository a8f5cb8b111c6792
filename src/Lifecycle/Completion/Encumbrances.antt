-- ===== src/Lifecycle/Completion/Encumbrances.antt =====
-- policy_lifecycle_workflow.go: a completed loan and a completed repayment, in memory, on display
-- and in the database.
use revival_integration.Base.{◌≡◌, true, false, some, pos, arith, lookup}
use revival_integration.Domain.Request.{RequestType, RequestOutcome}
use revival_integration.Domain.Status.{status_eq}
use revival_integration.Lifecycle.State.{PendingRequest}
use revival_integration.Lifecycle.Signal.{OperationCompletedSignal}
use revival_integration.Lifecycle.Command.{MetadataValue}
use revival_integration.Lifecycle.World.{Env, World, seen}
use revival_integration.Lifecycle.Pending.{take_pending}
use revival_integration.Lifecycle.Completion.{
  handle_operation_completed, complete_matched, release_lock_of, apply_resolution,
  resolve_completion_transition, update_encumbrances,
}
use revival_integration.Lifecycle.Completion.Metadata.{written}

-- Neither a loan nor a repayment resolves to a status.
apply_resolution-loan :
    (env : Env) (sig : OperationCompletedSignal) (w : World)
    → sig.request_type ≡ RequestType.loan
    → apply_resolution env sig w ≡ w
unfolding apply_resolution resolve_completion_transition status_eq
apply_resolution-loan env sig w t = rw (t)

apply_resolution-repayment :
    (env : Env) (sig : OperationCompletedSignal) (w : World)
    → sig.request_type ≡ RequestType.loan_repayment
    → apply_resolution env sig w ≡ w
unfolding apply_resolution resolve_completion_transition status_eq
apply_resolution-repayment env sig w t = rw (t)

module _ (env : Env) (sig : OperationCompletedSignal) (w : World) (pr : PendingRequest)
    (new : seen sig.request_id w ≡ false)
    (found : (take_pending sig.request_id w.state.pending_requests).1 ≡ some pr)
    (approved : sig.outcome ≡ RequestOutcome.approved) where
  -- An approved loan that was pending is recorded in memory and in the database, while the status
  -- on display stays what it was, without the loan.
  pub loan_completed_leaves_display :
      sig.request_type ≡ RequestType.loan
      → let w' = (handle_operation_completed env sig w).0 in
        (w'.state.encumbrances.has_active_loan ≡ true)
        × (written "has_active_loan" w'.trace ≡ some (MetadataValue.flag true))
        × (w'.state.current_status ≡ w.state.current_status)
        × (w'.state.display_status ≡ w.state.display_status)
  unfolding handle_operation_completed complete_matched release_lock_of update_encumbrances lookup
  loan_completed_leaves_display t = (
    grind (arith, apply_resolution-loan),
    grind (arith, apply_resolution-loan),
    grind (arith, apply_resolution-loan),
    grind (arith, apply_resolution-loan),
  )

  -- After an approved repayment the loan is gone in memory and in the database, while the
  -- assignment is cleared in the database only.
  pub repayment_leaves_assignment :
      sig.request_type ≡ RequestType.loan_repayment
      → let w' = (handle_operation_completed env sig w).0 in
        (w'.state.encumbrances.has_active_loan ≡ false)
        × (w'.state.metadata.loan_outstanding ≡ pos 0)
        × (written "assignment_type" w'.trace ≡ some (MetadataValue.text "NONE"))
        × (w'.state.encumbrances.assignment_type ≡ w.state.encumbrances.assignment_type)
  unfolding handle_operation_completed complete_matched release_lock_of update_encumbrances lookup
  repayment_leaves_assignment t = (
    grind (arith, apply_resolution-repayment),
    grind (arith, apply_resolution-repayment),
    grind (arith, apply_resolution-repayment),
    grind (arith, apply_resolution-repayment),
  )
