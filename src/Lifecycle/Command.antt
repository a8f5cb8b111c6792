-- ===== src/Lifecycle/Command.antt =====
-- policy-management-development/policy-management-development/policy-code/workflows/activities/
-- policy_activities.go: the parameters of the activities, and the commands of the workflow. A field
-- that no call of the workflow sets is left out.
use revival_integration.Base.{ℕ, Bool, Option, List, String, ℤ}
use revival_integration.Domain.Status.{Status}
use revival_integration.Domain.Request.{RequestType, RequestStatus, RequestOutcome}
use revival_integration.Stdlib.Duration.{Time}
use revival_integration.Lifecycle.State.{PolicyLifecycleState}
use revival_integration.Lifecycle.Signal.{Payload, RawMessage}

pub data SignalStatus : Type 0 where
  processed rejected duplicate failed : SignalStatus

pub record InitializePolicyParams : Type 0 where
  pub request_id : String
  pub policy_issue_id : String
  pub policy_number : String
  pub workflow_id : String
  pub customer_id : ℤ
  pub product_code : String
  pub product_type : String
  pub sum_assured : ℤ
  pub current_premium : ℤ
  pub premium_mode : String
  pub billing_method : String
  pub issue_date : Time
  pub maturity_date : Time
  pub paid_to_date : Time
  pub agent_id : Option ℤ

pub record StateTransitionParams : Type 0 where
  pub policy_id : ℤ
  pub policy_number : String
  pub from_status : Status
  pub to_status : Status
  pub reason : String
  pub triggered_by : String
  pub request_id : String
  pub version : ℕ

-- A value of `map[string]interface{}`.
pub data MetadataValue : Type 0 where
  flag : Bool → MetadataValue
  text : String → MetadataValue
  number : ℤ → MetadataValue
  date : Time → MetadataValue
  json : String → MetadataValue

pub record MetadataUpdateParams : Type 0 where
  pub policy_id : ℤ
  pub updates : List (String × MetadataValue)

pub record PolicyEvent : Type 0 where
  pub policy_id : ℤ
  pub policy_number : String
  pub event_type : String
  pub occurred_at : Time

pub record RejectedRequestParams : Type 0 where
  pub policy_id : ℤ
  pub signal_channel : String
  pub service_request_id : ℤ
  pub reason : String

pub record SignalLogEntry : Type 0 where
  pub policy_id : ℤ
  pub signal_channel : String
  pub signal_payload : Payload
  pub request_id : String
  pub status : SignalStatus
  pub state_before : Status

pub record ServiceRequestUpdate : Type 0 where
  pub service_request_id : ℤ
  pub submitted_at : Option Time
  pub status : RequestStatus
  pub outcome : Option RequestOutcome
  pub outcome_reason : Option String
  pub outcome_payload : RawMessage
  pub downstream_workflow_id : Option String
  pub downstream_service : Option String
  pub downstream_task_queue : Option String
  pub routed_at : Option Time
  pub completed_at : Option Time

pub record PolicyRefreshedState : Type 0 where
  pub current_status : Status
  pub previous_status : Option Status
  pub version : ℕ
  pub has_active_loan : Bool
  pub loan_outstanding : ℤ
  pub assignment_type : String
  pub aml_hold : Bool

pub record TerminalStateRecord : Type 0 where
  pub policy_id : ℤ
  pub policy_number : String
  pub final_status : Status
  pub terminal_at : Time
  pub cooling_expiry : Time
  pub final_snapshot : PolicyLifecycleState

pub record RefundRequest : Type 0 where
  pub policy_id : ℤ
  pub policy_number : String
  pub amount : ℤ
  pub reason : String
  pub request_id : String

pub record FinancialLockParams : Type 0 where
  pub policy_id : ℤ
  pub service_request_id : ℤ
  pub request_type : RequestType
  pub locked_at : Time
  pub timeout_at : Time

pub record ChildWorkflowInput : Type 0 where
  pub request_id : String
  pub policy_number : String
  pub policy_db_id : ℤ
  pub service_request_id : ℤ
  pub request_type : RequestType
  pub timeout_at : Time

-- The activities, child workflows and service calls that the workflow issues.
pub data Command : Type 0 where
  initialize_policy : InitializePolicyParams → Command
  publish_event : PolicyEvent → Command
  fetch_all_workflow_configs : List String → Command
  fetch_workflow_config : String → Command
  refresh_state_from_db : ℤ → Command
  log_signal_received : SignalLogEntry → Command
  record_rejected_request : RejectedRequestParams → Command
  update_service_request : ServiceRequestUpdate → Command
  acquire_financial_lock : FinancialLockParams → Command
  release_financial_lock : ℤ → Command
  cancel_downstream_workflow : String → Command
  update_policy_metadata : MetadataUpdateParams → Command
  record_state_transition : StateTransitionParams → Command
  persist_terminal_state : TerminalStateRecord → Command
  mark_workflow_completed : ℤ → Status → Command
  trigger_premium_refund : RefundRequest → Command
  execute_child_workflow : String → String → String → ChildWorkflowInput → Command
  upsert_status : Status → Command
  upsert_policy : String → Status → String → String → Time → Command
