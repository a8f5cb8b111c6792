-- ===== src/Lifecycle/Dispatch.antt =====
-- policy_lifecycle_workflow.go: what handleFinancialRequest and handleNFRRequest share: the key of a
-- request, the refreshed state, the rejection at the state gate and the dispatch of a child workflow.
use text.Mathlib.Text.{◌==◌ as str_eq}
use revival_integration.Base.{
  Option, none, some, [], ◌∷◌, ◌++◌, String, ◌<>◌, pos, if◌then◌else◌, length,
}
use revival_integration.Stdlib.Decimal.{format_int}
use revival_integration.Stdlib.Duration.{Time}
use revival_integration.Domain.Request.{
  RequestCategory, RequestStatus, downstream_task_queue_for_type,
}
use revival_integration.Lifecycle.State.{PendingRequest}
use revival_integration.Lifecycle.Signal.{PolicyRequestSignal, Payload, RawMessage}
use revival_integration.Lifecycle.Command.{
  Command, SignalStatus, ServiceRequestUpdate, PolicyRefreshedState,
}
use revival_integration.Lifecycle.World.{Env, World, now, emit, put, mark_processed, log_signal}
use revival_integration.Lifecycle.Routing.{
  downstream_workflow_type_for_request, downstream_child_id_prefix,
}

-- A ServiceRequestUpdate with the fields that a caller leaves out.
abbrev pub blank_update : ServiceRequestUpdate
blank_update = record {
  service_request_id = pos 0;
  submitted_at = none;
  status = RequestStatus.received;
  outcome = none;
  outcome_reason = none;
  outcome_payload = RawMessage.absent;
  downstream_workflow_id = none;
  downstream_service = none;
  downstream_task_queue = none;
  routed_at = none;
  completed_at = none;
}

unfoldable pub dedup_key : PolicyRequestSignal → String
dedup_key sig =
    if str_eq sig.idempotency_key "" then format_int sig.service_request_id else sig.idempotency_key

-- What RefreshStateFromDBActivity brings back is taken over field by field; on an error the state
-- in memory stays.
apply_refreshed : Option PolicyRefreshedState → World → World
apply_refreshed none w = w
apply_refreshed (some r) w =
    put
      (record w.state {
        current_status = r.current_status;
        encumbrances = record w.state.encumbrances {
          has_active_loan = r.has_active_loan;
          assignment_type = r.assignment_type;
          aml_hold = r.aml_hold;
        };
        metadata = record w.state.metadata { loan_outstanding = r.loan_outstanding };
        version = r.version;
      })
      w

unfoldable pub refresh_state : Env → World → World
unfolding apply_refreshed
refresh_state env w =
    apply_refreshed (env.refreshed (length w.trace))
      (emit (Command.refresh_state_from_db w.state.policy_db_id) w)

-- STATE_GATE_REJECTED: logged, written to the service request, and remembered.
unfoldable pub reject_at_gate : Env → String → String → PolicyRequestSignal → String → World → World
reject_at_gate env channel key sig reason w = mark_processed env key (
    emit
      (Command.update_service_request (record blank_update {
        service_request_id = sig.service_request_id;
        submitted_at = sig.submitted_at;
        status = RequestStatus.state_gate_rejected;
        outcome_reason = some reason;
      }))
      (log_signal channel (Payload.request sig) key SignalStatus.rejected w.state.current_status w))

pub child_id : String → PolicyRequestSignal → String
child_id key sig = downstream_child_id_prefix sig.request_type <> ("-" <> key)

-- The child workflow, the pending request and the service request's ROUTED, for both handlers.
unfoldable pub dispatch_child :
    Env → String → PolicyRequestSignal → RequestCategory → Time → World → World
dispatch_child env key sig category timeout w =
    let queue = downstream_task_queue_for_type sig.request_type in
    let child =
      emit
        (Command.execute_child_workflow queue (child_id key sig)
          (downstream_workflow_type_for_request sig.request_type)
          (record {
            request_id = key;
            policy_number = w.state.policy_number;
            policy_db_id = w.state.policy_db_id;
            service_request_id = sig.service_request_id;
            request_type = sig.request_type;
            timeout_at = timeout;
          }))
        w in
    let pending : PendingRequest = record {
      request_id = key;
      service_request_id = sig.service_request_id;
      request_type = sig.request_type;
      request_category = category;
      downstream_workflow = child_id key sig;
      routed_at = now env child;
      timeout_at = timeout;
      submitted_at = sig.submitted_at;
    } in
    let queued =
      put (record w.state { pending_requests = w.state.pending_requests ++ (pending ∷ []) })
        child in
    mark_processed env key (
      emit
        (Command.update_service_request (record blank_update {
          service_request_id = sig.service_request_id;
          submitted_at = sig.submitted_at;
          status = RequestStatus.routed;
          downstream_workflow_id = some (child_id key sig);
          downstream_service = some queue;
          downstream_task_queue = some queue;
          routed_at = some (now env queued);
        }))
        queued)
