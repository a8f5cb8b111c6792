-- ===== src/Surrender/Approval.antt =====
-- ApprovalWorkflow of temporal/workflows/approval_workflow.go. What its selector sees first in each
-- round comes as a list of events.
pub mod Decisions
use text.Mathlib.Text.{◌==◌ as str_eq}
use revival_integration.Base.{
  ℕ, zero, suc, ◌+◌, ◌*◌, Bool, true, false, Option, none, some, List, [], ◌∷◌, String, ◌<>◌, ℤ,
  pos, at_most_int, is_zero, leb, ◌==◌, if◌then◌else◌, length,
}
use revival_integration.Stdlib.Decimal.{format_nat}
use revival_integration.Stdlib.Duration.{Time}
use revival_integration.Revival.Case.{Answer}

-- Amounts are whole hundredths.
pub record ApprovalWorkflowInput : Type 0 where
  pub surrender_request_id : String
  pub priority : String
  pub auto_approval_limit : ℤ

-- result.Decision: its texts, and the empty one.
pub data ApprovalDecision : Type 0 where
  undecided : ApprovalDecision
  auto_approved : ApprovalDecision
  timed_out : ApprovalDecision
  approved : ApprovalDecision
  rejected : ApprovalDecision

pub record ApprovalWorkflowResult : Type 0 where
  pub surrender_request_id : String
  pub decision : ApprovalDecision
  pub approved_by : String
  pub approved_at : Time
  pub escalation_count : ℕ
  pub completed_at : Time

pub data ApprovalEvent : Type 0 where
  decision_signal : String → ApprovalEvent
  sla_breach : ApprovalEvent

-- What the workflow does, and the other things that move the clock on, the newest first.
pub data ApprovalCall : Type 0 where
  get_surrender_request_details : String → ApprovalCall
  auto_approve : String → ApprovalCall
  create_approval_task : String → String → ApprovalCall
  start_sla_timer : ℕ → ApprovalCall
  event_seen : ApprovalEvent → ApprovalCall
  escalate_approval_task : String → ℕ → String → ApprovalCall
  process_approval_decision : String → String → String → ApprovalCall

-- The clock and the answers, by what the workflow did before.
pub record ApprovalEnv : Type 0 where
  pub clock : ℕ → Time
  -- NetSurrenderValue
  pub details : ℕ → Answer ℤ
  pub auto_approval_error : ℕ → Option String
  pub task_created : ℕ → Answer String
  -- ApprovedBy
  pub processed_by : ℕ → Answer String

-- The wait for a decision: the decision and the escalations before it; or the last escalation.
pub data Waited : Type 0 where
  decided : String → ℕ → List ApprovalCall → Waited
  gave_up : ℕ → List ApprovalCall → Waited
  still_open : List ApprovalCall → Waited

-- The result, with the error beside it, if there is one.
pub data ApprovalOutcome : Type 0 where
  done : ApprovalWorkflowResult → Option String → List ApprovalCall → ApprovalOutcome
  pending : List ApprovalCall → ApprovalOutcome

abbrev pub max_escalations : ℕ
max_escalations = 3

-- The text that a round leaves in `decision`.
abbrev pub decision_of : ApprovalEvent → String
decision_of (ApprovalEvent.decision_signal d) = d
decision_of ApprovalEvent.sla_breach = ""

-- autoApprovalLimit, 5000 by default.
unfoldable pub approval_limit : ApprovalWorkflowInput → ℤ
approval_limit input =
    if is_zero input.auto_approval_limit then pos 500000 else input.auto_approval_limit

-- The escalation; its error is only logged.
unfoldable pub escalate : String → ℕ → ℕ → List ApprovalCall → List ApprovalCall
escalate task hours count calls =
    ApprovalCall.escalate_approval_task task count
      ("SLA breach - " <> (format_nat (hours * count) <> " hours elapsed"))
    ∷ calls

-- The loop, from a number of escalations and the hours of the timer.
unfoldable pub await_decision : String → List ApprovalEvent → ℕ → ℕ → List ApprovalCall → Waited
await_decision task [] count hours calls =
    Waited.still_open (ApprovalCall.start_sla_timer hours ∷ calls)
await_decision task (event ∷ events) count hours calls =
    let seen = ApprovalCall.event_seen event ∷ ApprovalCall.start_sla_timer hours ∷ calls in
    let rest = await_decision task events (suc count) 12 (escalate task hours (suc count) seen) in
    if str_eq (decision_of event) ""
    then (if leb max_escalations (suc count) then Waited.gave_up (suc count) seen else rest)
    else Waited.decided (decision_of event) count seen

module _ (env : ApprovalEnv) (input : ApprovalWorkflowInput) where
  unfoldable pub empty_result : ApprovalWorkflowResult
  empty_result = record {
    surrender_request_id = input.surrender_request_id;
    decision = ApprovalDecision.undecided;
    approved_by = "";
    approved_at = 0;
    escalation_count = 0;
    completed_at = 0;
  }

  -- Step 5.
  unfoldable pub process_decision : String → String → ℕ → List ApprovalCall → ApprovalOutcome
  process_decision task decision count calls =
      let counted = record empty_result { escalation_count = count } in
      if str_eq decision "APPROVED"
      then (let asked =
            ApprovalCall.process_approval_decision input.surrender_request_id decision task
            ∷ calls in
          elim (env.processed_by (length asked)) [
            | Answer.failed err ↦ ApprovalOutcome.done counted (some err) asked
            | Answer.result name ↦
                ApprovalOutcome.done
                  (record counted {
                    decision = ApprovalDecision.approved;
                    approved_by = name;
                    approved_at = env.clock (length asked);
                    completed_at = env.clock (length asked);
                  })
                  none asked
          ])
      else ApprovalOutcome.done
          (record counted {
            decision = ApprovalDecision.rejected;
            completed_at = env.clock (length calls);
          })
          none calls

  -- What follows the loop.
  unfoldable pub after_wait : String → Waited → ApprovalOutcome
  after_wait task (Waited.decided decision count calls) = process_decision task decision count calls
  after_wait task (Waited.gave_up count calls) =
      ApprovalOutcome.done
        (record empty_result {
          decision = ApprovalDecision.timed_out;
          escalation_count = count;
          completed_at = env.clock (length calls);
        })
        (some ("approval timeout after " <> (format_nat count <> " escalations"))) calls
  after_wait task (Waited.still_open calls) = ApprovalOutcome.pending calls

  -- Steps 3 and 4.
  unfoldable pub approve_by_hand : List ApprovalEvent → List ApprovalCall → ApprovalOutcome
  approve_by_hand events calls =
      let asked =
        ApprovalCall.create_approval_task input.surrender_request_id input.priority ∷ calls in
      elim (env.task_created (length asked)) [
        | Answer.failed err ↦ ApprovalOutcome.done empty_result (some err) asked
        | Answer.result task ↦ after_wait task (await_decision task events 0 24 asked)
      ]

  -- Step 2.
  unfoldable pub approve_by_value : List ApprovalEvent → ℤ → List ApprovalCall → ApprovalOutcome
  approve_by_value events value calls =
      if at_most_int value (approval_limit input)
      then (let asked = ApprovalCall.auto_approve input.surrender_request_id ∷ calls in
          elim (env.auto_approval_error (length asked)) [
            | some _ ↦ approve_by_hand events asked
            | none ↦
                ApprovalOutcome.done
                  (record empty_result {
                    decision = ApprovalDecision.auto_approved;
                    approved_by = "SYSTEM";
                    approved_at = env.clock (length asked);
                    completed_at = env.clock (length asked);
                  })
                  none asked
          ])
      else approve_by_hand events calls

  unfoldable pub approval_workflow : List ApprovalEvent → ApprovalOutcome
  approval_workflow events =
      let asked = ApprovalCall.get_surrender_request_details input.surrender_request_id ∷ [] in
      elim (env.details (length asked)) [
        | Answer.failed err ↦ ApprovalOutcome.done empty_result (some err) asked
        | Answer.result value ↦ approve_by_value events value asked
      ]
