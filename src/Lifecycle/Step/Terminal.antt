-- ===== src/Lifecycle/Step/Terminal.antt =====
-- policy_lifecycle_workflow.go: `reachedTerminal`, the flag by which the main loop ends.
use revival_integration.Base.{◌≡◌, true, arith}
use revival_integration.Domain.Status.{is_terminal}
use revival_integration.Lifecycle.Signal.{
  Signal, InvestigationConcludedSignal, AdminVoidSignal, VoluntaryPaidUpSignal,
}
use revival_integration.Lifecycle.World.{Env, World}
use revival_integration.Lifecycle.Transition.{do_transition}
use revival_integration.Lifecycle.Completion.{handle_claim_settled}
use revival_integration.Lifecycle.Completion.Terminal.{handle_operation_completed-is_terminal}
use revival_integration.Lifecycle.Compliance.{handle_investigation_concluded}
use revival_integration.Lifecycle.Administration.{handle_admin_void, handle_voluntary_paid_up}
use revival_integration.Lifecycle.Step.{handle_signal}

handle_investigation_concluded-is_terminal :
    (env : Env) (sig : InvestigationConcludedSignal) (w : World)
    → (handle_investigation_concluded env sig w).1 ≡ true
    → is_terminal (handle_investigation_concluded env sig w).0.state.current_status ≡ true
unfolding handle_investigation_concluded do_transition is_terminal
handle_investigation_concluded-is_terminal env sig w h = ground arith

handle_admin_void-is_terminal :
    (env : Env) (sig : AdminVoidSignal) (w : World)
    → (handle_admin_void env sig w).1 ≡ true
    → is_terminal (handle_admin_void env sig w).0.state.current_status ≡ true
unfolding handle_admin_void do_transition is_terminal
handle_admin_void-is_terminal env sig w h = ground arith

handle_voluntary_paid_up-is_terminal :
    (env : Env) (sig : VoluntaryPaidUpSignal) (w : World)
    → (handle_voluntary_paid_up env sig w).1 ≡ true
    → is_terminal (handle_voluntary_paid_up env sig w).0.state.current_status ≡ true
unfolding handle_voluntary_paid_up do_transition is_terminal
handle_voluntary_paid_up-is_terminal env sig w h = ground arith

-- A signal that ends the main loop has brought the policy to a terminal status.
pub handle_signal-is_terminal :
    (env : Env) (s : Signal) (w : World)
    → (handle_signal env s w).1 ≡ true
    → is_terminal (handle_signal env s w).0.state.current_status ≡ true
unfolding handle_signal handle_claim_settled
handle_signal-is_terminal env (Signal.investigation_concluded s) w h =
    handle_investigation_concluded-is_terminal env s w h
handle_signal-is_terminal env (Signal.admin_void s) w h = handle_admin_void-is_terminal env s w h
handle_signal-is_terminal env (Signal.voluntary_paid_up_request s) w h =
    handle_voluntary_paid_up-is_terminal env s w h
handle_signal-is_terminal env _ w h = grind (arith, handle_operation_completed-is_terminal)
