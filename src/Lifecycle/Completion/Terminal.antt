-- ===== src/Lifecycle/Completion/Terminal.antt =====
-- policy_lifecycle_workflow.go: handleOperationCompleted and the terminal statuses.
use revival_integration.Base.{◌≡◌, true, arith}
use revival_integration.Domain.Status.{status_eq, is_terminal}
use revival_integration.Lifecycle.State.{PendingRequest}
use revival_integration.Lifecycle.Signal.{OperationCompletedSignal}
use revival_integration.Lifecycle.World.{Env, World}
use revival_integration.Lifecycle.Transition.{do_transition}
use revival_integration.Lifecycle.Completion.{
  resolve_completion_transition, update_encumbrances, apply_resolution, complete_matched,
  handle_operation_completed,
}
use revival_integration.Domain.Request.{RequestType}

update_encumbrances-current_status :
    (t : RequestType) (sig : OperationCompletedSignal) (w : World)
    → (update_encumbrances t sig.outcome w).state.current_status ≡ w.state.current_status
unfolding update_encumbrances
update_encumbrances-current_status t sig w = ground arith

-- A resolution that says `terminal` brings the policy to the terminal status that it names.
apply_resolution-is_terminal :
    (env : Env) (sig : OperationCompletedSignal) (w : World)
    → (resolve_completion_transition sig.request_type w.state sig).1 ≡ true
    → is_terminal (apply_resolution env sig w).state.current_status ≡ true
unfolding resolve_completion_transition apply_resolution do_transition is_terminal status_eq
apply_resolution-is_terminal env sig w h = ground arith

complete_matched-is_terminal :
    (env : Env) (sig : OperationCompletedSignal) (pr : PendingRequest) (w : World)
    → (complete_matched env sig pr w).1 ≡ true
    → is_terminal (complete_matched env sig pr w).0.state.current_status ≡ true
unfolding complete_matched
complete_matched-is_terminal env sig pr w h =
    rw update_encumbrances-current_status (apply_resolution-is_terminal env sig _ h)

pub handle_operation_completed-is_terminal :
    (env : Env) (sig : OperationCompletedSignal) (w : World)
    → (handle_operation_completed env sig w).1 ≡ true
    → is_terminal (handle_operation_completed env sig w).0.state.current_status ≡ true
unfolding handle_operation_completed
handle_operation_completed-is_terminal env sig w h = grind (arith, complete_matched-is_terminal)
