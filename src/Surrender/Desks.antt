-- ===== src/Surrender/Desks.antt =====
-- The desks that a surrender passes, and what SurrenderProcessingWorkflow of
-- temporal/workflows/voluntary_surrender_workflow.go asks for and is answered.
use revival_integration.Base.{ℕ, Bool, Option, List, String, ℤ}
use revival_integration.Lifecycle.Signal.{RawMessage}
use revival_integration.Revival.Case.{Answer}
use revival_integration.Surrender.Contract.{
  PmSurrenderRequestPayload, IndexSurrenderInput, SubmitDeInput, ProcessPaymentInput,
  SignalPmWorkflowInput,
}

-- The desks whose signals the workflow waits for, in this order.
pub data SurrenderStage : Type 0 where
  data_entry quality_check approval : SurrenderStage

-- What the selector of a wait sees first: the signal or the timer; or nothing yet.
pub data DeskArrival : Type 0 where
  signal : SubmitDeInput → DeskArrival
  timer : DeskArrival
  nothing : DeskArrival

-- The activities with their arguments, and what else moves the clock on, the newest first.
pub data ProcessingCall : Type 0 where
  index_surrender : IndexSurrenderInput → ProcessingCall
  validate_eligibility : String → String → ProcessingCall
  start_timer : ℕ → ProcessingCall
  wait_ended : SurrenderStage → ProcessingCall
  submit : SurrenderStage → SubmitDeInput → ProcessingCall
  calculate_surrender_value : String → String → ProcessingCall
  process_payment : ProcessPaymentInput → ProcessingCall
  update_policy_status : String → String → String → ProcessingCall
  signal_pm_workflow : SignalPmWorkflowInput → ProcessingCall
  signal_failure_logged : String → ProcessingCall

-- The answers, by what was done before. Times matter to no branch.
pub record ProcessingEnv : Type 0 where
  pub workflow_id : String
  -- json.Unmarshal into the zero value, its error dropped
  pub payload_of : RawMessage → PmSurrenderRequestPayload
  -- A text as json.Marshal writes it
  pub json_text : String → String
  -- `%v` of the reasons
  pub reasons_text : List String → String
  -- ServiceRequestID
  pub indexed : ℕ → Answer String
  -- Eligible and Reasons
  pub eligibility : ℕ → Answer (Bool × List String)
  pub arrival : SurrenderStage → DeskArrival
  -- Success and Message
  pub submitted : ℕ → Answer (Bool × String)
  -- Success, Message and Status
  pub approved : ℕ → Answer (Bool × String × String)
  -- NetSurrenderValue and PredictedDisposition
  pub calculated : ℕ → Answer (ℤ × String)
  pub paid : ℕ → Option String
  -- The error of SignalPMWorkflowActivity after its attempts
  pub signalled : ℕ → Option String

-- The error that is returned, or the desk that is waited for, and what was done.
pub data ProcessingOutcome : Type 0 where
  ended : Option String → List ProcessingCall → ProcessingOutcome
  waiting : SurrenderStage → List ProcessingCall → ProcessingOutcome

-- The days of the timers.
abbrev pub desk_days : SurrenderStage → ℕ
desk_days SurrenderStage.approval = 30
desk_days _ = 7

abbrev pub timeout_reason : SurrenderStage → String
timeout_reason SurrenderStage.data_entry = "Data Entry not completed within 7 days"
timeout_reason SurrenderStage.quality_check = "Quality Check not completed within 7 days"
timeout_reason SurrenderStage.approval = "Approval not completed within 30 days"

abbrev pub timeout_error : SurrenderStage → String
timeout_error SurrenderStage.data_entry = "data entry timeout"
timeout_error SurrenderStage.quality_check = "quality check timeout"
timeout_error SurrenderStage.approval = "approval timeout"

abbrev pub submission_error : SurrenderStage → String
submission_error SurrenderStage.data_entry = "DE submission failed: "
submission_error SurrenderStage.quality_check = "QC submission failed: "
submission_error SurrenderStage.approval = "approval submission failed: "
