-- ===== src/Revival/State.antt =====
-- RevivalWorkflowState, and the structs of workflow/revival_workflow.go and workflow/activities.go
-- that it is built from. Money, a `float64`, is whole hundredths.
use revival_integration.Base.{ℕ, Bool, Option, String, ℤ}
use revival_integration.Stdlib.Duration.{Time}

-- CurrentStatus, also the status column that the activities write.
pub data RevivalStatus : Type 0 where
  initializing : RevivalStatus
  validating_policy : RevivalStatus
  validation_failed : RevivalStatus
  creating_request : RevivalStatus
  failed_to_create : RevivalStatus
  indexed : RevivalStatus
  waiting_for_data_entry : RevivalStatus
  processing_data_entry : RevivalStatus
  data_entry_complete : RevivalStatus
  waiting_for_qc : RevivalStatus
  processing_qc : RevivalStatus
  approval_pending : RevivalStatus
  processing_approval : RevivalStatus
  approved : RevivalStatus
  returned_to_indexer : RevivalStatus
  rejected : RevivalStatus
  data_entry_pending : RevivalStatus
  active : RevivalStatus
  terminated : RevivalStatus

pub record IndexRevivalInput : Type 0 where
  pub ticket_id : String
  pub policy_number : String
  pub request_type : String
  pub indexed_by : String
  pub indexed_date : Time
  pub documents : String

-- `none` is a nil pointer, and the empty text of a stage.
pub record RevivalWorkflowState : Type 0 where
  pub request_id : String
  pub ticket_id : String
  pub policy_number : String
  pub current_status : RevivalStatus
  pub last_error_message : String
  pub last_error_stage : Option RevivalStatus
  pub last_error_at : Option Time
  pub recoverable_error : Bool
  -- The bit pattern of an `int`.
  pub error_count : ℕ
  pub started_at : Time
  pub number_of_installments : ℤ
  pub maturity_date : Time
  -- DataEntryDate is nil or `&dataEntrySignal.EnteredAt`: it reads what the variable holds now.
  pub has_data_entry_date : Bool
  pub sla_start_date : Option Time
  pub sla_end_date : Option Time
  pub first_collection_done : Bool
  pub installments_paid : ℕ
  pub sla_expired : Bool
  pub completed_at : Option Time

pub record RevivalRequestInput : Type 0 where
  pub ticket_id : String
  pub policy_number : String
  pub request_type : String
  pub current_status : RevivalStatus
  pub indexed_by : String
  pub indexed_date : Time
  pub workflow_id : String
  pub run_id : String
  pub documents : String

pub record DataEntryInput : Type 0 where
  pub data_entered_by : String
  pub revival_type : String
  pub number_of_installments : ℤ
  pub revival_amount : ℤ
  pub installment_amount : ℤ
  pub data_entry_timestamp : Time
  pub missing_documents : String
  pub documents : String
  pub sgst : ℤ
  pub cgst : ℤ
  pub interest : ℤ
  pub medical_examiner_code : String
  pub medical_examiner_name : String

pub record SuspenseAdjustmentResult : Type 0 where
  pub has_suspense : Bool
  pub total_suspense_amount : ℤ
  pub original_revival_amount : ℤ
  pub adjusted_revival_amount : ℤ
  pub suspense_entries_count : ℤ

pub record InstallmentMonitorInput : Type 0 where
  pub request_id : String
  pub next_due_date : Time
  pub number_of_installments : ℤ
  pub start_installment_no : ℤ
