-- ===== src/Lifecycle/Tests/Withdrawals.antt =====
-- Tests of a request that is routed and then withdrawn.
use revival_integration.Base.{◌≡◌, refl, none, [], contains, lookup, insert}
use revival_integration.Domain.Status.{Status, status_eq}
use revival_integration.Domain.Request.{RequestType}
use revival_integration.Lifecycle.Signal.{WithdrawalRequestSignal}
use revival_integration.Lifecycle.Transition.{do_transition}
use revival_integration.Lifecycle.Gate.{
  is_state_eligible, is_request_eligible, requires_financial_lock, pre_route_status,
}
use revival_integration.Lifecycle.Request.{
  dedup_key, refresh_state, handle_financial_request, decide_financial, route_financial, pre_route,
  acquire_lock, dispatch_child,
}
use revival_integration.Lifecycle.Administration.{handle_withdrawal}
use revival_integration.Lifecycle.Administration.Withdrawal.{withdrawal_undoes_request}
use revival_integration.Lifecycle.Tests.{env, in_force, world_of, request}

abbrev withdrawal : WithdrawalRequestSignal
withdrawal = record {
  request_id = "w-1";
  target_request_id = "s-1";
  withdrawal_reason = "changed my mind";
}

withdrawal_undoes_request_example :
    let st =
      (handle_withdrawal env withdrawal (
        handle_financial_request env
          (request "s-1" RequestType.surrender)
          (world_of in_force))).state in
    (st.current_status ≡ Status.active) × (st.pending_requests ≡ []) × (st.active_lock ≡ none)
unfolding contains lookup insert dedup_key refresh_state status_eq is_request_eligible
    is_state_eligible requires_financial_lock pre_route_status handle_financial_request
    decide_financial route_financial pre_route acquire_lock dispatch_child do_transition
withdrawal_undoes_request_example =
    withdrawal_undoes_request env (request "s-1" RequestType.surrender) withdrawal
      (world_of in_force) refl refl refl refl refl refl refl
