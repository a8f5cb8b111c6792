-- ===== src/Revival/Workflow.antt =====
-- InstallmentRevivalWorkflow of workflow/revival_workflow.go: the set-up, WorkflowLoop and the
-- collection, one after the other.
pub mod Collected
use revival_integration.Base.{ℕ, ◌*◌, false, Option, none, some, List, [], String, pos, length}
use revival_integration.Stdlib.Duration.{day}
use revival_integration.Revival.State.{
  RevivalStatus, IndexRevivalInput, RevivalWorkflowState, RevivalRequestInput,
  SuspenseAdjustmentResult,
}
use revival_integration.Revival.Signal.{
  DataEntryCompleteSignal, QualityCheckCompleteSignal, ApprovalDecisionSignal,
}
use revival_integration.Revival.Case.{
  Event, Answer, RevivalEnv, Case, note, update, set_status, set_recoverable_workflow_error,
  clear_recoverable_workflow_error,
}
use revival_integration.Revival.Loop.{LoopOutcome, workflow_loop}
use revival_integration.Revival.Collection.{CollectionEvent, CollectionOutcome, collect}

-- The signals that the workflow finds in its channels, and the event that ends the collection.
pub record Arrivals : Type 0 where
  pub data_entries : List DataEntryCompleteSignal
  pub quality_checks : List QualityCheckCompleteSignal
  pub approvals : List ApprovalDecisionSignal
  pub collection : Option CollectionEvent

-- Go's zero values of dataEntrySignal and suspenseResult.
abbrev no_data_entry : DataEntryCompleteSignal
no_data_entry = record {
  entered_by = "";
  entered_at = 0;
  revival_type = "";
  number_of_installments = pos 0;
  revival_amount = pos 0;
  installment_amount = pos 0;
  missing_documents = "";
  documents = "";
  interest = pos 0;
  sgst = pos 0;
  cgst = pos 0;
  return_to_indexer = false;
  return_reason = "";
  medical_examiner_code = "";
  medical_examiner_name = "";
}

abbrev no_suspense : SuspenseAdjustmentResult
no_suspense = record {
  has_suspense = false;
  total_suspense_amount = pos 0;
  original_revival_amount = pos 0;
  adjusted_revival_amount = pos 0;
  suspense_entries_count = pos 0;
}

pub data SetUp : Type 0 where
  ready : Case → SetUp
  refused : Case → SetUp

module _ (env : RevivalEnv) (input : IndexRevivalInput) where
  unfoldable pub first_state : RevivalWorkflowState
  first_state = record {
    request_id = "";
    ticket_id = input.ticket_id;
    policy_number = input.policy_number;
    current_status = RevivalStatus.initializing;
    last_error_message = "";
    last_error_stage = none;
    last_error_at = none;
    recoverable_error = false;
    error_count = 0;
    started_at = env.clock 0;
    number_of_installments = pos 0;
    maturity_date = 0;
    has_data_entry_date = false;
    sla_start_date = none;
    sla_end_date = none;
    first_collection_done = false;
    installments_paid = 0;
    sla_expired = false;
    completed_at = none;
  }

  unfoldable pub first_case : Arrivals → Case
  first_case arrivals = record {
    state = first_state;
    data_entry = no_data_entry;
    suspense = no_suspense;
    data_entries = arrivals.data_entries;
    quality_checks = arrivals.quality_checks;
    approvals = arrivals.approvals;
    events = [];
  }

  -- SetQueryHandler; its error is recorded and the workflow goes on.
  unfoldable pub register : String → String → Case → Case
  register query message c = elim (env.registered query) [
    | none ↦ c
    | some err ↦ set_recoverable_workflow_error env RevivalStatus.initializing message err c
  ]

  unfoldable pub revival_request : RevivalRequestInput
  revival_request = record {
    ticket_id = input.ticket_id;
    policy_number = input.policy_number;
    request_type = input.request_type;
    current_status = RevivalStatus.indexed;
    indexed_by = input.indexed_by;
    indexed_date = input.indexed_date;
    workflow_id = env.workflow_id;
    run_id = env.run_id;
    documents = input.documents;
  }

  -- CreateRevivalRequestActivity and what follows it; an error ends the workflow.
  unfoldable pub create_request : Case → SetUp
  create_request c =
      let asked =
        note (Event.create_revival_request revival_request)
          (set_status RevivalStatus.creating_request c) in
      elim (env.created (length asked.events)) [
        | Answer.failed err ↦ SetUp.refused (
            set_recoverable_workflow_error env RevivalStatus.creating_request
              "Unable to create revival request" err
              (set_status RevivalStatus.failed_to_create asked))
        | Answer.result id ↦
            let cleared = clear_recoverable_workflow_error asked in
            SetUp.ready (
              update
                (record cleared.state {
                  request_id = id;
                  current_status = RevivalStatus.waiting_for_data_entry;
                })
                cleared)
      ]

  -- Up to the loop: `ready` stands before its first round.
  unfoldable pub set_up : Arrivals → SetUp
  set_up arrivals =
      let registered =
        register "getStateDetails" "Unable to register detailed workflow query handler"
          (register "getState" "Unable to register workflow query handler" (first_case arrivals)) in
      let asked =
        note (Event.validate_policy input.policy_number)
          (set_status RevivalStatus.validating_policy registered) in
      elim (env.validated (length asked.events)) [
        | Answer.failed err ↦ SetUp.refused (
            set_recoverable_workflow_error env RevivalStatus.validating_policy
              "Policy validation failed" err (set_status RevivalStatus.validation_failed asked))
        | Answer.result maturity ↦
            let cleared = clear_recoverable_workflow_error asked in
            create_request (update (record cleared.state { maturity_date = maturity }) cleared)
      ]

pub data RevivalOutcome : Type 0 where
  waits : Case → RevivalOutcome
  ends : Case → RevivalOutcome
  spins : Case → RevivalOutcome
  panics : Case → RevivalOutcome

module _ (env : RevivalEnv) where
  -- The collection: the timer starts, and the selector waits for its first event.
  unfoldable pub collection_phase : Option CollectionEvent → Case → RevivalOutcome
  collection_phase event c =
      let timed = note (Event.start_timer (60 * day)) c in
      elim event [
        | none ↦ RevivalOutcome.waits timed
        | some e ↦ elim (collect env e timed) [
          | CollectionOutcome.completed d ↦ RevivalOutcome.ends d
          | CollectionOutcome.panicked d ↦ RevivalOutcome.panics d
        ]
      ]

  unfoldable pub after_loop : Option CollectionEvent → LoopOutcome → RevivalOutcome
  after_loop event (LoopOutcome.still_waiting c) = RevivalOutcome.waits c
  after_loop event (LoopOutcome.ended c) = RevivalOutcome.ends c
  after_loop event (LoopOutcome.goes_to_collection c) = collection_phase event c
  after_loop event (LoopOutcome.out_of_fuel c) = RevivalOutcome.spins c

  unfoldable pub installment_revival_workflow : ℕ → IndexRevivalInput → Arrivals → RevivalOutcome
  installment_revival_workflow fuel input arrivals = elim (set_up env input arrivals) [
    | SetUp.ready c ↦ after_loop arrivals.collection (workflow_loop env fuel c)
    | SetUp.refused c ↦ RevivalOutcome.ends c
  ]
