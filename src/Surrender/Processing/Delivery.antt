-- ===== src/Surrender/Processing/Delivery.antt =====
-- The surrender workflow as the child of PolicyLifecycleWorkflow: the input that policy management
-- gives it, and how policy management takes the signal that it sends back.
pub mod Ignored
pub mod Settled
use text.Mathlib.Text.{◌==◌ as str_eq}
use text.Mathlib.TextEquality.{eq_iff}
use mathlib.Core.List.{append-nil}
use revival_integration.Base.{
  ◌≡◌, refl, ap, sym, ◌∙◌, Bool, true, false, Option, none, some, List, [], ◌∷◌, ◌++◌, String,
  if◌then◌else◌, arith,
}
use revival_integration.Domain.Status.{Status, status_eq}
use revival_integration.Domain.Request.{
  RequestType, RequestOutcome, request_type_text, request_outcome_text,
}
use revival_integration.Stdlib.Duration.{Time}
use revival_integration.Lifecycle.State.{PendingRequest}
use revival_integration.Lifecycle.Signal.{
  Signal, PolicyRequestSignal, OperationCompletedSignal, RawMessage,
}
use revival_integration.Lifecycle.Command.{Command, ChildWorkflowInput}
use revival_integration.Lifecycle.World.{Env, World, seen}
use revival_integration.Surrender.Contract.{
  SurrenderProcessingInput, PmOperationCompletedSignal, SignalPmWorkflowInput, completed_signal,
}

-- The JSON of a ChildWorkflowInput, decoded; policy management sets no RequestPayload.
unfoldable pub surrender_input : ChildWorkflowInput → SurrenderProcessingInput
surrender_input child = record {
  request_id = child.request_id;
  policy_number = child.policy_number;
  policy_db_id = child.policy_db_id;
  service_request_id = child.service_request_id;
  request_type = request_type_text child.request_type;
  request_payload = RawMessage.absent;
  timeout_at = child.timeout_at;
}

-- The constant that a text is, of those listed.
abbrev type_among : String → List RequestType → RequestType
type_among text [] = RequestType.unlisted text
type_among text (t ∷ ts) = if str_eq (request_type_text t) text then t else type_among text ts

abbrev outcome_among : String → List RequestOutcome → RequestOutcome
outcome_among text [] = RequestOutcome.unlisted text
outcome_among text (o ∷ os) =
    if str_eq (request_outcome_text o) text then o else outcome_among text os

abbrev pub request_types : List RequestType
request_types =
    RequestType.surrender ∷ RequestType.loan ∷ RequestType.loan_repayment ∷ RequestType.revival
    ∷ RequestType.death_claim ∷ RequestType.maturity_claim ∷ RequestType.survival_benefit
    ∷ RequestType.commutation ∷ RequestType.conversion ∷ RequestType.flc ∷ RequestType.paid_up
    ∷ RequestType.nomination_change ∷ RequestType.billing_method_change ∷ RequestType.assignment
    ∷ RequestType.address_change ∷ RequestType.premium_refund ∷ RequestType.duplicate_bond
    ∷ RequestType.forced_surrender ∷ RequestType.admin_void ∷ RequestType.reopen ∷ []

abbrev pub request_outcomes : List RequestOutcome
request_outcomes =
    RequestOutcome.approved ∷ RequestOutcome.rejected ∷ RequestOutcome.withdrawn
    ∷ RequestOutcome.timeout ∷ RequestOutcome.preempted ∷ RequestOutcome.domain_rejected ∷ []

-- The JSON of the signal, decoded by policy management: the same fields.
unfoldable pub decoded : PmOperationCompletedSignal → OperationCompletedSignal
unfolding request_type_text request_outcome_text
decoded s = record {
  request_id = s.request_id;
  request_type = type_among s.request_type request_types;
  outcome = outcome_among s.outcome request_outcomes;
  state_transition = s.state_transition;
  outcome_payload = s.outcome_payload;
  completed_at = s.completed_at;
}

-- The child workflow that was started last.
abbrev pub last_child : List Command → Option ChildWorkflowInput
last_child [] = none
last_child (Command.execute_child_workflow _ _ _ child ∷ _) = some child
last_child (_ ∷ trace) = last_child trace

-- How policy management gets what the surrender workflow sent at a time.
abbrev pub delivered : Time → SignalPmWorkflowInput → Signal
delivered at s = Signal.surrender_completed (decoded (completed_signal at s))
