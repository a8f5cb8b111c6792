-- ===== src/Lifecycle/Completion/Registry.antt =====
-- policy_lifecycle_workflow.go: which service request a completion signal marks as completed.
use text.Mathlib.Text.{◌==◌ as str_eq}
use revival_integration.Base.{◌≡◌, Bool, true, false, List, [], ◌∷◌, ◌++◌, ℤ, arith}
use revival_integration.Domain.Request.{RequestStatus}
use revival_integration.Lifecycle.State.{PendingRequest}
use revival_integration.Lifecycle.Signal.{OperationCompletedSignal}
use revival_integration.Lifecycle.Command.{Command}
use revival_integration.Lifecycle.World.{Env, World, seen}
use revival_integration.Lifecycle.Transition.{do_transition}
use revival_integration.Lifecycle.Pending.Compaction.{is_pending}
use revival_integration.Lifecycle.Pending.Aliasing.{head_or, take_pending-aliased}
use revival_integration.Lifecycle.Completion.{
  update_encumbrances, release_lock_of, apply_resolution, complete_matched,
  handle_operation_completed,
}

abbrev is_completed : RequestStatus → Bool
is_completed RequestStatus.completed = true
is_completed _ = false

abbrev completes : Command → List ℤ → List ℤ
completes (Command.update_service_request u) ids = elim (is_completed u.status) [
  | true ↦ u.service_request_id ∷ ids
  | false ↦ ids
]
completes _ ids = ids

-- The service requests that were set to COMPLETED, the latest first.
abbrev pub completed_ids : List Command → List ℤ
completed_ids [] = []
completed_ids (c ∷ cs) = completes c (completed_ids cs)

complete_matched-completed_ids :
    (env : Env) (sig : OperationCompletedSignal) (pr : PendingRequest) (w : World)
    → completed_ids (complete_matched env sig pr w).0.trace
      ≡ pr.service_request_id ∷ completed_ids w.trace
unfolding complete_matched release_lock_of apply_resolution update_encumbrances do_transition
complete_matched-completed_ids env sig pr w = ground arith

-- A completion signal for a pending request sets to COMPLETED, in the database, the service request
-- of the pending request that stands behind it, and its own only if it is the last in the slice.
pub handle_operation_completed-completed_ids :
    (env : Env) (sig : OperationCompletedSignal) (w : World) (xs ys : List PendingRequest)
    (m : PendingRequest)
    → w.state.pending_requests ≡ xs ++ (m ∷ ys)
    → is_pending sig.request_id xs ≡ false
    → str_eq m.request_id sig.request_id ≡ true
    → is_pending sig.request_id ys ≡ false
    → seen sig.request_id w ≡ false
    → completed_ids (handle_operation_completed env sig w).0.trace
      ≡ (head_or m ys).service_request_id ∷ completed_ids w.trace
unfolding handle_operation_completed
handle_operation_completed-completed_ids env sig w xs ys m e hx em hy new =
    rw (new, e, take_pending-aliased sig.request_id xs ys m hx em hy)
      (complete_matched-completed_ids env sig (head_or m ys) _)
