-- ===== src/Revival/Case.antt =====
-- What InstallmentRevivalWorkflow of workflow/revival_workflow.go acts on: its local variables, the
-- signals that wait in its channels, and what happened so far, the newest first.
use revival_integration.Base.{
  ℕ, Bool, true, false, Option, none, some, List, ◌∷◌, String, ◌<>◌, ℤ, length,
}
use revival_integration.Stdlib.Duration.{Time}
use revival_integration.Lifecycle.Transition.{next_int64}
use revival_integration.Revival.State.{
  RevivalStatus, RevivalWorkflowState, RevivalRequestInput, DataEntryInput,
  SuspenseAdjustmentResult, InstallmentMonitorInput,
}
use revival_integration.Revival.Signal.{
  DataEntryCompleteSignal, QualityCheckCompleteSignal, ApprovalDecisionSignal,
}
use revival_integration.Revival.Maturity.{Violation}

-- The desk that returns a request to the indexer.
pub data Desk : Type 0 where
  data_entry : Desk
  qc : Desk
  approval : Desk

-- The reason that the indexer reads: the desk's own, or a formatted violation of the constraint.
pub data ReturnReason : Type 0 where
  stated : String → ReturnReason
  maturity_violated : Desk → Violation → ReturnReason

-- The activities, with their arguments, and the other things that move the clock on.
pub data Event : Type 0 where
  validate_policy : String → Event
  create_revival_request : RevivalRequestInput → Event
  received : Desk → Event
  terminate_and_return_to_indexer : String → ReturnReason → Desk → Event
  update_data_entry : String → DataEntryInput → Event
  check_and_adjust_suspense : String → String → ℤ → Event
  update_qc : String → String → String → Bool → String → Event
  update_revival_status : String → RevivalStatus → Event
  update_workflow_state : String → RevivalStatus → Time → Time → Event
  update_approval : String → String → String → Time → Time → Event
  start_timer : ℕ → Event
  timer_fired : Event
  received_first_collection : Event
  terminate_revival : String → String → Event
  start_installment_monitor : String → InstallmentMonitorInput → Event
  finalize_revival_after_first_collection : String → Event

-- What an activity gives back.
pub data Answer (A : Type 0) : Type 0 where
  result : A → Answer A
  failed : String → Answer A

-- The Temporal service and the activities, by how much had happened when they were asked.
-- `none` is the answer of an activity that has no result and no error.
pub record RevivalEnv : Type 0 where
  pub clock : ℕ → Time
  pub workflow_id : String
  pub run_id : String
  -- SetQueryHandler
  pub registered : String → Option String
  -- ValidatePolicyActivity's MaturityDate
  pub validated : ℕ → Answer Time
  pub created : ℕ → Answer String
  pub acknowledged : ℕ → Option String
  pub suspense : ℕ → Answer SuspenseAdjustmentResult
  pub child_started : ℕ → Option String
  -- `int(a / b)` of two `float64`
  pub whole_quotient : ℤ → ℤ → ℤ

pub record Case : Type 0 where
  pub state : RevivalWorkflowState
  -- dataEntrySignal and suspenseResult
  pub data_entry : DataEntryCompleteSignal
  pub suspense : SuspenseAdjustmentResult
  pub data_entries : List DataEntryCompleteSignal
  pub quality_checks : List QualityCheckCompleteSignal
  pub approvals : List ApprovalDecisionSignal
  pub events : List Event

abbrev pub time_of : RevivalEnv → Case → Time
time_of env c = env.clock (length c.events)

abbrev pub note : Event → Case → Case
note e c = record c { events = e ∷ c.events }

abbrev pub update : RevivalWorkflowState → Case → Case
update s c = record c { state = s }

-- `state.CurrentStatus = status`
abbrev pub set_status : RevivalStatus → Case → Case
set_status status c = update (record c.state { current_status = status }) c

-- setRecoverableWorkflowError, whose caller always has an error.
unfoldable pub set_recoverable_workflow_error :
    RevivalEnv → RevivalStatus → String → String → Case → Case
set_recoverable_workflow_error env stage user_message err c =
    update
      (record c.state {
        last_error_stage = some stage;
        recoverable_error = true;
        last_error_at = some (time_of env c);
        error_count = next_int64 c.state.error_count;
        last_error_message = user_message <> (": " <> err);
      })
      c

unfoldable pub clear_recoverable_workflow_error : Case → Case
clear_recoverable_workflow_error c =
    update
      (record c.state {
        last_error_message = "";
        last_error_stage = none;
        last_error_at = none;
        recoverable_error = false;
      })
      c

-- How a round of WorkflowLoop ends: `continue`, blocked in Receive, `return nil`, `break`.
pub data Round : Type 0 where
  next : Case → Round
  blocked : Case → Round
  closed : Case → Round
  passed : Case → Round

-- The error path of every activity in the loop: record the error, go back to the stage.
unfoldable pub retry : RevivalEnv → RevivalStatus → String → String → Case → Round
retry env stage message err c =
    next (set_status stage (set_recoverable_workflow_error env stage message err c))

-- Run an activity that has no result, and go on by what it answers.
abbrev pub acknowledge :
    RevivalEnv → Event → (String → Case → Round) → (Case → Round) → Case → Round
acknowledge env e on_error on_success c = elim (env.acknowledged (length (note e c).events)) [
  | none ↦ on_success (note e c)
  | some err ↦ on_error err (note e c)
]

-- TerminateAndReturnToIndexerActivity, from a stage.
unfoldable pub return_case_to_indexer :
    RevivalEnv → Desk → RevivalStatus → ReturnReason → String → Case → Round
return_case_to_indexer env desk stage reason message c =
    acknowledge env (Event.terminate_and_return_to_indexer c.state.request_id reason desk)
      (retry env stage message) (λ d. closed (set_status RevivalStatus.returned_to_indexer d)) c
