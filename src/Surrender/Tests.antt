-- ===== src/Surrender/Tests.antt =====
-- Tests of the theorems on the surrender workflows.
mod Completions
use revival_integration.Surrender.Payment.{PaymentEnv, PaymentWorkflowInput, payment_workflow}
use revival_integration.Surrender.Payment.Once.{IsPaidOnce, payment_workflow-IsPaidOnce}
use revival_integration.Base.{
  true, some, ℕ, ◌*◌, ◌≡◌, refl, none, List, [], ◌∷◌, pos, ◌==◌, if◌then◌else◌,
}
use revival_integration.Stdlib.Duration.{hour}
use revival_integration.Revival.Case.{Answer}
use revival_integration.Surrender.Approval.{
  ApprovalEvent, ApprovalEnv, ApprovalWorkflowInput, approval_workflow,
}
use revival_integration.Surrender.Approval.Decisions.{IsConcluded, approval_workflow-IsConcluded}
use revival_integration.Surrender.Forced.{
  ForcedEnv, ForcedCall, ForcedSurrenderWorkflowInput, ForcedSurrenderWorkflowResult, ForcedOutcome,
  forced_surrender_workflow, evaluate, create_reminders, reminder_batch_size, check_windows,
  initiate_expired,
}
use revival_integration.Surrender.Forced.Batches.{submitted, forced_surrender_workflow-submitted}

-- A request of 6000, over the limit of 5000.
abbrev approvals : ApprovalEnv
approvals = record {
  clock = λ i. i * hour;
  details = λ _. Answer.result (pos 600000);
  auto_approval_error = λ _. none;
  task_created = λ _. Answer.result "task-1";
  processed_by = λ _. Answer.result "approver";
}

abbrev request : ApprovalWorkflowInput
request = record {
  surrender_request_id = "surrender-1";
  priority = "HIGH";
  auto_approval_limit = pos 0;
}

-- The second round brings the approval.
abbrev events : List ApprovalEvent
events = ApprovalEvent.sla_breach ∷ ApprovalEvent.decision_signal "APPROVED" ∷ []

approval_workflow-IsConcluded_example :
    IsConcluded events (approval_workflow approvals request events)
approval_workflow-IsConcluded_example = approval_workflow-IsConcluded approvals request events

-- The reminders of the second batch fail.
abbrev reminders_at : ℕ → Answer ℕ
reminders_at n = if n == 3 then Answer.failed "database is down" else Answer.result 2

abbrev evaluations : ForcedEnv ℕ ℕ
evaluations = record {
  clock = λ i. i * hour;
  eligible = λ _. Answer.result (11 ∷ 12 ∷ 13 ∷ []);
  reminders = reminders_at;
  expired = λ _. Answer.result (7 ∷ []);
  initiated = λ _. Answer.result 1;
}

abbrev monthly_evaluation : ForcedSurrenderWorkflowInput
monthly_evaluation = record { evaluation_date = "2026-01-31"; batch_size = pos 2 }

abbrev result_of : ForcedOutcome ℕ ℕ → ForcedSurrenderWorkflowResult
result_of (ForcedOutcome.evaluated r _) = r
result_of (ForcedOutcome.not_evaluated _ r _) = r

abbrev calls_of : ForcedOutcome ℕ ℕ → List (ForcedCall ℕ ℕ)
calls_of (ForcedOutcome.evaluated _ calls) = calls
calls_of (ForcedOutcome.not_evaluated _ _ calls) = calls

abbrev evaluation : ForcedOutcome ℕ ℕ
evaluation = forced_surrender_workflow evaluations monthly_evaluation

evaluation_returns :
    evaluation ≡ ForcedOutcome.evaluated (result_of evaluation) (calls_of evaluation)
unfolding forced_surrender_workflow evaluate create_reminders reminder_batch_size check_windows
    initiate_expired
evaluation_returns = refl

forced_surrender_workflow-submitted_example :
    (submitted (calls_of evaluation) ≡ 11 ∷ 12 ∷ 13 ∷ [])
    × ((result_of evaluation).policies_evaluated ≡ 3)
forced_surrender_workflow-submitted_example =
    forced_surrender_workflow-submitted evaluations monthly_evaluation (11 ∷ 12 ∷ 13 ∷ [])
      {r = result_of evaluation} {last = calls_of evaluation} refl evaluation_returns

-- The disposition record fails after the payment.
abbrev payment_answers : PaymentEnv
payment_answers = record {
  clock = λ i. i * hour;
  eligibility = λ _. Answer.result (true, "");
  disposition = λ _. Answer.result ("TERMINATED_SURRENDER", "SURRENDERED");
  paid = λ _. Answer.result "payment-1";
  recorded = λ _. some "database is down";
  updated = λ _. none;
}

abbrev payment : PaymentWorkflowInput
payment = record {
  surrender_request_id = "surrender-1";
  policy_id = "policy-1";
  amount = pos 600000;
  disbursement_method = "CHEQUE";
}

payment_workflow-IsPaidOnce_example : IsPaidOnce (payment_workflow payment_answers payment)
payment_workflow-IsPaidOnce_example = payment_workflow-IsPaidOnce payment_answers payment
