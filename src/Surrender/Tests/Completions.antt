-- ===== src/Surrender/Tests/Completions.antt =====
-- Tests of the surrender workflow as the child of the policy lifecycle workflow.
use revival_integration.Base.{
  ◌+◌, ◌*◌, ◌≡◌, refl, true, false, none, some, List, [], ◌∷◌, pos, contains, lookup, insert,
}
use revival_integration.Stdlib.Duration.{day}
use revival_integration.Revival.Case.{Answer}
use revival_integration.Domain.Status.{Status, status_eq}
use revival_integration.Domain.Request.{RequestType}
use revival_integration.Lifecycle.State.{PolicyLifecycleState}
use revival_integration.Lifecycle.Signal.{Signal, PolicyRequestSignal, RawMessage}
use revival_integration.Lifecycle.Command.{ChildWorkflowInput}
use revival_integration.Lifecycle.World.{World}
use revival_integration.Lifecycle.Transition.{do_transition}
use revival_integration.Lifecycle.Timeouts.{
  routing_timeout_from_config, routing_timeout_config_key_for_type, routing_timeout_for_request,
}
use revival_integration.Lifecycle.Gate.{
  is_state_eligible, is_request_eligible, requires_financial_lock, pre_route_status,
}
use revival_integration.Lifecycle.Request.{
  dedup_key, refresh_state, handle_financial_request, decide_financial, route_financial, pre_route,
  acquire_lock, dispatch_child,
}
use revival_integration.Lifecycle.Pending.Compaction.{is_pending}
use revival_integration.Lifecycle.Pending.Locks.{holds_lock}
use revival_integration.Lifecycle.Step.{handle_signal}
use revival_integration.Lifecycle.Tests.{env, in_force, world_of, request, pending}
use revival_integration.Surrender.Contract.{
  SignalPmWorkflowInput, SubmitDeInput, SurrenderProcessingInput, PmSurrenderRequestPayload,
}
use revival_integration.Surrender.Desks.{
  DeskArrival, ProcessingCall, ProcessingEnv, ProcessingOutcome,
}
use revival_integration.Surrender.Processing.{
  finish_surrender, pay_surrender, value_surrender, await_desk, submit_form, submit_approval,
  pass_desks, check_surrender, surrender_processing_workflow,
}
use revival_integration.Surrender.Processing.Report.{
  reports, is_paid_out, IsReported, surrender_processing_workflow-IsReported,
}
use revival_integration.Surrender.Processing.Delivery.{surrender_input, last_child, delivered}
use revival_integration.Surrender.Processing.Delivery.Ignored.{surrender_completion_ignored}
use revival_integration.Surrender.Processing.Delivery.Settled.{
  IsSettled, completed_surrender_settles,
}

abbrev form : SubmitDeInput
form = record {
  surrender_request_id = "surrender-1";
  surrender_request_channel = "COUNTER";
  request_name = "SURRENDER";
  current_stage_name = "";
  created_by = pos 3;
  modified_by = pos 3;
  remarks = "";
  payment_mode = "CHEQUE";
  bank_name = "";
  micr_code = "";
  account_type = "";
  ifsc_code = "";
  account_number = "";
  account_holder_name = "";
  branch_name = "";
  bank_type = "";
  is_micr_validated = false;
  policy_bond = true;
  lrrb = true;
  prb = false;
  pdo_certificate = false;
  application = true;
  idproof_insurant = true;
  addressproof_insurant = true;
  idproof_messenger = false;
  addressproof_messenger = false;
  account_details_proof = true;
  cpc_office_id = pos 8;
  policy_number = "PLI-1";
  others = false;
}

abbrev no_payload : PmSurrenderRequestPayload
no_payload = record {
  source_channel = "";
  disbursement_method = "";
  bank_account_id = pos 0;
  reason = "";
}

-- All desks pass the surrender and the payment succeeds.
abbrev desks : ProcessingEnv
desks = record {
  workflow_id = "sur-s-1";
  payload_of = λ _. no_payload;
  json_text = λ text. text;
  reasons_text = λ _. "";
  indexed = λ _. Answer.result "surrender-1";
  eligibility = λ _. Answer.result (true, []);
  arrival = λ _. DeskArrival.signal form;
  submitted = λ _. Answer.result (true, "");
  approved = λ _. Answer.result (true, "", "APPROVED");
  calculated = λ _. Answer.result (pos 600000, "TERMINATED_SURRENDER");
  paid = λ _. none;
  signalled = λ _. none;
}

abbrev input : SurrenderProcessingInput
input = record {
  request_id = "s-1";
  policy_number = "PLI-1";
  policy_db_id = pos 77;
  service_request_id = pos 41;
  request_type = "SURRENDER";
  request_payload = RawMessage.absent;
  timeout_at = 737010 * day;
}

surrender_processing_workflow-IsReported_example :
    IsReported desks input (surrender_processing_workflow desks input)
surrender_processing_workflow-IsReported_example =
    surrender_processing_workflow-IsReported desks input

abbrev calls_of : ProcessingOutcome → List ProcessingCall
calls_of (ProcessingOutcome.ended _ calls) = calls
calls_of (ProcessingOutcome.waiting _ calls) = calls

surrender_pays :
    surrender_processing_workflow desks input
    ≡ ProcessingOutcome.ended none (calls_of (surrender_processing_workflow desks input))
unfolding surrender_processing_workflow check_surrender pass_desks submit_approval submit_form
    await_desk value_surrender pay_surrender finish_surrender
surrender_pays = refl

-- The request waits behind a change of address.
abbrev surrendering : PolicyLifecycleState
surrendering = record in_force {
  current_status = Status.pending_surrender;
  previous_status = Status.active;
  pending_requests =
      pending "address-1" (pos 42) RequestType.address_change
      ∷ pending "s-1" (pos 41) RequestType.surrender
      ∷ [];
  active_lock = some (record {
    request_id = "s-1";
    request_type = RequestType.surrender;
    locked_at = 736995 * day;
    timeout_at = 736998 * day;
  });
}

completed_surrender_settles_example :
    (s : SignalPmWorkflowInput) × (reports (calls_of (surrender_processing_workflow desks input))
      ≡ s ∷ [])
    × (let done = handle_signal env (delivered (737000 * day) s) (world_of surrendering) in
        IsSettled
          (is_paid_out desks (calls_of (surrender_processing_workflow desks input)))
          Status.active
          (pending "address-1" (pos 42) RequestType.address_change ∷ [])
          done.0
          done.1)
unfolding contains status_eq lookup
completed_surrender_settles_example =
    completed_surrender_settles desks input surrender_pays env (world_of surrendering)
      (pending "address-1" (pos 42) RequestType.address_change ∷ [])
      (pending "s-1" (pos 41) RequestType.surrender) refl refl refl refl refl refl refl
      (737000 * day)

abbrev asked : PolicyRequestSignal
asked = request "s-1" RequestType.surrender

abbrev routed : World
routed = (handle_signal env (Signal.surrender_request asked) (world_of in_force)).0

-- What the routed request starts.
abbrev child : ChildWorkflowInput
child = record {
  request_id = "s-1";
  policy_number = "PLI-1";
  policy_db_id = pos 77;
  service_request_id = pos 900;
  request_type = RequestType.surrender;
  timeout_at = 737007 * day + 4;
}

child_started : last_child routed.trace ≡ some child
unfolding contains lookup insert dedup_key refresh_state status_eq is_request_eligible
    is_state_eligible requires_financial_lock pre_route_status handle_signal
    handle_financial_request decide_financial route_financial pre_route acquire_lock dispatch_child
    do_transition routing_timeout_from_config routing_timeout_config_key_for_type
    routing_timeout_for_request
child_started = refl

child_pays :
    surrender_processing_workflow desks (surrender_input child)
    ≡ ProcessingOutcome.ended none
        (calls_of (surrender_processing_workflow desks (surrender_input child)))
unfolding surrender_processing_workflow check_surrender pass_desks submit_approval submit_form
    await_desk value_surrender pay_surrender finish_surrender
child_pays = refl

surrender_completion_ignored_example :
    (s : SignalPmWorkflowInput) × (reports
        (calls_of (surrender_processing_workflow desks (surrender_input child)))
      ≡ s ∷ [])
    × (handle_signal env (delivered (737000 * day) s) routed ≡ (routed, false))
    × (is_pending "s-1" routed.state.pending_requests ≡ true)
    × (holds_lock "s-1" routed.state.active_lock ≡ true)
unfolding contains lookup dedup_key refresh_state status_eq is_request_eligible is_state_eligible
    requires_financial_lock
surrender_completion_ignored_example =
    surrender_completion_ignored env asked (world_of in_force) refl refl refl child_started desks
      child_pays (737000 * day)
