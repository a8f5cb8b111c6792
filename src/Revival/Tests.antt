-- ===== src/Revival/Tests.antt =====
-- A revival for the tests of its theorems.
pub mod Loops
pub mod Payments
use revival_integration.Base.{ℕ, ◌+◌, ◌*◌, false, true, none, some, List, [], ◌∷◌, pos, String}
use revival_integration.Stdlib.Duration.{Time, day, hour}
use revival_integration.Stdlib.Calendar.Civil.{first_of_month}
use revival_integration.Revival.State.{
  RevivalStatus, RevivalWorkflowState, IndexRevivalInput, SuspenseAdjustmentResult,
}
use revival_integration.Revival.Signal.{
  DataEntryCompleteSignal, QualityCheckCompleteSignal, ApprovalDecisionSignal,
}
use revival_integration.Revival.Case.{RevivalEnv, Case, Answer}
use revival_integration.Revival.Workflow.{Arrivals}

-- 6 January 2026, and the dates of so many hours and of so many months after it.
abbrev pub january : ℕ
january = 12 * 2025

abbrev pub beginning : Time
beginning = 738891 * day

abbrev pub hourly : ℕ → Time
hourly i = beginning + i * hour

abbrev pub monthly : ℕ → Time
monthly i = beginning + i * (31 * day)

abbrev pub maturity : Time
maturity = beginning + 4000 * day

abbrev pub suspense_found : SuspenseAdjustmentResult
suspense_found = record {
  has_suspense = false;
  total_suspense_amount = pos 0;
  original_revival_amount = pos 100;
  adjusted_revival_amount = pos 100;
  suspense_entries_count = pos 0;
}

-- Every activity succeeds.
abbrev pub env_at : (ℕ → Time) → RevivalEnv
env_at clock = record {
  clock = clock;
  workflow_id = "revival-1";
  run_id = "run-1";
  registered = λ _. none;
  validated = λ _. Answer.result maturity;
  created = λ _. Answer.result "request-1";
  acknowledged = λ _. none;
  suspense = λ _. Answer.result suspense_found;
  child_started = λ _. none;
  whole_quotient = λ _ _. pos 0;
}

abbrev pub index_input : IndexRevivalInput
index_input = record {
  ticket_id = "ticket-1";
  policy_number = "policy-1";
  request_type = "installment_revival";
  indexed_by = "indexer";
  indexed_date = beginning;
  documents = "[]";
}

abbrev pub entry : DataEntryCompleteSignal
entry = record {
  entered_by = "clerk";
  entered_at = beginning;
  revival_type = "installment";
  number_of_installments = pos 3;
  revival_amount = pos 300;
  installment_amount = pos 100;
  missing_documents = "";
  documents = "";
  interest = pos 0;
  sgst = pos 0;
  cgst = pos 0;
  return_to_indexer = false;
  return_reason = "";
  medical_examiner_code = "";
  medical_examiner_name = "";
}

abbrev pub check_passed : QualityCheckCompleteSignal
check_passed = record {
  qc_passed = true;
  qc_comments = "";
  performed_by = "checker";
  performed_at = beginning;
  missing_documents = "";
  return_to_indexer = false;
  return_reason = "";
}

abbrev pub approval : ApprovalDecisionSignal
approval = record {
  is_approved = true;
  comments = "";
  approved_by = "approver";
  approved_at = beginning;
  return_to_indexer = false;
  return_reason = "";
  missing_documents_list = [];
  redirect_to_stage = "";
  redirect_comments = "";
}

-- One signal for each desk.
abbrev pub arrivals : Arrivals
arrivals = record {
  data_entries = entry ∷ [];
  quality_checks = check_passed ∷ [];
  approvals = approval ∷ [];
  collection = none;
}

-- A case of which the data is entered, at a status.
abbrev pub case_at : RevivalStatus → Case
case_at status = record {
  state = record {
    request_id = "request-1";
    ticket_id = "ticket-1";
    policy_number = "policy-1";
    current_status = status;
    last_error_message = "";
    last_error_stage = none;
    last_error_at = none;
    recoverable_error = false;
    error_count = 0;
    started_at = beginning;
    number_of_installments = pos 3;
    maturity_date = maturity;
    has_data_entry_date = true;
    sla_start_date = none;
    sla_end_date = none;
    first_collection_done = false;
    installments_paid = 0;
    sla_expired = false;
    completed_at = none;
  };
  data_entry = entry;
  suspense = suspense_found;
  data_entries = entry ∷ [];
  quality_checks = check_passed ∷ [];
  approvals = approval ∷ [];
  events = [];
}
