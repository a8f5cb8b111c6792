-- ===== src/Lifecycle/Step/Frame.antt =====
-- policy_lifecycle_workflow.go: the handlers leave the counters of Continue-As-New to the main loop.
use revival_integration.Base.{◌≡◌, arith, String}
use revival_integration.Lifecycle.Signal.{
  Signal, PolicyRequestSignal, OperationCompletedSignal, AdminVoidSignal,
}
use revival_integration.Domain.Request.{RequestType, RequestOutcome}
use revival_integration.Lifecycle.State.{PendingRequest}
use revival_integration.Lifecycle.World.{Env, World}
use revival_integration.Lifecycle.Transition.{do_transition}
use revival_integration.Lifecycle.Request.{
  give_way, refresh_state, reject_at_gate, reject_suspended, dispatch_child, pre_route,
  acquire_lock, route_financial, decide_financial, handle_financial_request,
  handle_death_notification, handle_nfr_request,
}
use revival_integration.Lifecycle.Completion.{
  handle_operation_completed, handle_claim_settled, handle_nfr_completed, complete_matched,
  release_lock_of, apply_resolution, update_encumbrances,
}
use revival_integration.Lifecycle.Payments.{
  handle_premium_paid, handle_payment_dishonored, handle_loan_balance_updated,
}
use revival_integration.Lifecycle.Compliance.{
  handle_aml_flag_raised, handle_aml_flag_cleared, handle_investigation_started,
  handle_investigation_concluded, handle_conversion_reversed, handle_dispute_registered,
  handle_dispute_resolved,
}
use revival_integration.Lifecycle.Administration.{
  handle_customer_id_merge, handle_admin_void, handle_voluntary_paid_up, handle_withdrawal,
}
use revival_integration.Lifecycle.Administration.Frame.{cancel_all-state}
use revival_integration.Lifecycle.Created.{handle_policy_created}
use revival_integration.Lifecycle.Step.{handle_signal, sync_batch_state}

financial-event_count :
    (env : Env) (key : String) (sig : PolicyRequestSignal) (w : World)
    → (decide_financial env key sig w).state.event_count ≡ w.state.event_count
unfolding decide_financial reject_at_gate reject_suspended route_financial pre_route acquire_lock
    dispatch_child do_transition
financial-event_count env key sig w = ground arith

request-event_count :
    (env : Env) (sig : PolicyRequestSignal) (w : World)
    → (handle_financial_request env sig w).state.event_count ≡ w.state.event_count
unfolding handle_financial_request refresh_state
request-event_count env sig w = grind (arith, financial-event_count)

death-event_count :
    (env : Env) (sig : PolicyRequestSignal) (w : World)
    → (handle_death_notification env sig w).state.event_count ≡ w.state.event_count
unfolding handle_death_notification give_way
death-event_count env sig w = grind (arith, request-event_count)

resolution-event_count :
    (env : Env) (sig : OperationCompletedSignal) (w : World)
    → (apply_resolution env sig w).state.event_count ≡ w.state.event_count
unfolding apply_resolution do_transition
resolution-event_count env sig w = ground arith

encumbrances-event_count :
    (t : RequestType) (o : RequestOutcome) (w : World)
    → (update_encumbrances t o w).state.event_count ≡ w.state.event_count
unfolding update_encumbrances
encumbrances-event_count t o w = ground arith

release-event_count :
    (key : String) (w : World) → (release_lock_of key w).state.event_count ≡ w.state.event_count
unfolding release_lock_of
release-event_count key w = ground arith

matched-event_count :
    (env : Env) (sig : OperationCompletedSignal) (pr : PendingRequest) (w : World)
    → (complete_matched env sig pr w).0.state.event_count ≡ w.state.event_count
unfolding complete_matched
matched-event_count env sig pr w =
    grind (arith, resolution-event_count, encumbrances-event_count, release-event_count)

completed-event_count :
    (env : Env) (sig : OperationCompletedSignal) (w : World)
    → (handle_operation_completed env sig w).0.state.event_count ≡ w.state.event_count
unfolding handle_operation_completed
completed-event_count env sig w = grind (arith, matched-event_count)

void-event_count :
    (env : Env) (sig : AdminVoidSignal) (w : World)
    → (handle_admin_void env sig w).0.state.event_count ≡ w.state.event_count
unfolding handle_admin_void do_transition
void-event_count env sig w = grind (arith, cancel_all-state)

-- No handler touches the event counter.
pub handle_signal-event_count :
    (env : Env) (s : Signal) (w : World)
    → (handle_signal env s w).0.state.event_count ≡ w.state.event_count
unfolding handle_signal do_transition handle_nfr_request refresh_state reject_at_gate dispatch_child
    handle_claim_settled handle_nfr_completed handle_premium_paid handle_payment_dishonored
    handle_loan_balance_updated handle_aml_flag_raised handle_aml_flag_cleared
    handle_investigation_started handle_investigation_concluded handle_conversion_reversed
    handle_dispute_registered handle_dispute_resolved handle_customer_id_merge
    handle_voluntary_paid_up handle_withdrawal handle_policy_created release_lock_of
    sync_batch_state
handle_signal-event_count env (Signal.policy_created s) w = ground arith
handle_signal-event_count env (Signal.admin_void s) w = void-event_count env s w
handle_signal-event_count env (Signal.nfr_request s) w = ground arith
handle_signal-event_count env (Signal.death_notification s) w = death-event_count env _ w
handle_signal-event_count env (Signal.premium_paid s) w = ground arith
handle_signal-event_count env (Signal.withdrawal_request s) w = ground arith
handle_signal-event_count env (Signal.nfr_completed s) w = ground arith
handle_signal-event_count env _ w = grind (arith, request-event_count, completed-event_count)
