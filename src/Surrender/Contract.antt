-- ===== src/Surrender/Contract.antt =====
-- The messages of the surrender workflow: temporal/workflows/pm_contract.go, and the inputs of
-- temporal/activities/voluntary_surrender_activities.go and pm_signal_activity.go.
use revival_integration.Base.{Bool, String, ℤ}
use revival_integration.Stdlib.Duration.{Time}
use revival_integration.Lifecycle.Signal.{RawMessage}

pub record SurrenderProcessingInput : Type 0 where
  pub request_id : String
  pub policy_number : String
  pub policy_db_id : ℤ
  pub service_request_id : ℤ
  pub request_type : String
  pub request_payload : RawMessage
  pub timeout_at : Time

pub record PmSurrenderRequestPayload : Type 0 where
  pub source_channel : String
  pub disbursement_method : String
  pub bank_account_id : ℤ
  pub reason : String

pub record IndexSurrenderInput : Type 0 where
  pub policy_number : String
  pub surrender_request_channel : String
  pub temporal_workflow_id : String
  pub pm_service_request_id : ℤ
  pub pm_policy_db_id : ℤ
  pub stage_name : String

-- The form of all three desks.
pub record SubmitDeInput : Type 0 where
  pub surrender_request_id : String
  pub surrender_request_channel : String
  pub request_name : String
  pub current_stage_name : String
  pub created_by : ℤ
  pub modified_by : ℤ
  pub remarks : String
  pub payment_mode : String
  pub bank_name : String
  pub micr_code : String
  pub account_type : String
  pub ifsc_code : String
  pub account_number : String
  pub account_holder_name : String
  pub branch_name : String
  pub bank_type : String
  pub is_micr_validated : Bool
  pub policy_bond : Bool
  pub lrrb : Bool
  pub prb : Bool
  pub pdo_certificate : Bool
  pub application : Bool
  pub idproof_insurant : Bool
  pub addressproof_insurant : Bool
  pub idproof_messenger : Bool
  pub addressproof_messenger : Bool
  pub account_details_proof : Bool
  pub cpc_office_id : ℤ
  pub policy_number : String
  pub others : Bool

-- The amount is whole hundredths.
pub record ProcessPaymentInput : Type 0 where
  pub surrender_request_id : String
  pub amount : ℤ
  pub disbursement_method : String

pub record SignalPmWorkflowInput : Type 0 where
  pub pm_workflow_id : String
  pub signal_name : String
  pub request_id : String
  pub request_type : String
  pub outcome : String
  pub state_transition : String
  pub outcome_payload : RawMessage

-- What SignalPMWorkflowActivity puts on the wire.
pub record PmOperationCompletedSignal : Type 0 where
  pub request_id : String
  pub request_type : String
  pub outcome : String
  pub state_transition : String
  pub outcome_payload : RawMessage
  pub completed_at : Time

unfoldable pub completed_signal : Time → SignalPmWorkflowInput → PmOperationCompletedSignal
completed_signal at input = record {
  request_id = input.request_id;
  request_type = input.request_type;
  outcome = input.outcome;
  state_transition = input.state_transition;
  outcome_payload = input.outcome_payload;
  completed_at = at;
}

abbrev pub outcome_approved : String
outcome_approved = "APPROVED"

abbrev pub outcome_rejected : String
outcome_rejected = "REJECTED"

abbrev pub outcome_timeout : String
outcome_timeout = "TIMEOUT"

abbrev pub state_transition_surrendered : String
state_transition_surrendered = "PENDING_SURRENDER→SURRENDERED"

abbrev pub state_transition_surrender_rejected : String
state_transition_surrender_rejected = "PENDING_SURRENDER→ACTIVE"

abbrev pub state_transition_surrender_timeout : String
state_transition_surrender_timeout = "PENDING_SURRENDER→ACTIVE"
