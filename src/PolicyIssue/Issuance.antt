-- ===== src/PolicyIssue/Issuance.antt =====
-- PolicyIssuanceWorkflow of workflows/policy_issuance_workflow.go. The answers of the activities
-- that are no part of the model, and what the selectors see first, are given by an environment; no
-- one else changes the proposal's status while the workflow runs.
use text.Mathlib.Text.{◌==◌ as str_eq}
use revival_integration.Base.{
  ℕ, Bool, not, ◌&&◌, Option, none, List, [], ◌∷◌, String, ◌<>◌, ℤ, if◌then◌else◌,
}
use revival_integration.Stdlib.Duration.{Time}
use revival_integration.Revival.Case.{Answer}
use revival_integration.PolicyIssue.Proposal.{ProposalStatus}
use revival_integration.PolicyIssue.Calls.{PremiumResult, IssuanceCall}
use revival_integration.PolicyIssue.Activities.{
  DatabaseEnv, Issuance, Done, did, execute, update_proposal_status_activity,
}

pub record PolicyIssuanceInput : Type 0 where
  pub proposal_id : ℤ
  pub proposal_number : String
  pub customer_id : String
  pub product_code : String
  pub policy_type : String
  pub sum_assured : ℤ
  pub policy_term : ℤ
  pub age_at_entry : ℤ
  pub gender : String
  pub premium_payment_frequency : String
  pub age_proof_type : String
  pub insured_state : String
  pub policy_number : String
  pub proposal_date : Time

-- result.Status: its texts, and the empty one.
pub data ResultStatus : Type 0 where
  no_status validation_failed eligibility_failed not_eligible premium_calc_failed
        save_premium_failed qc_rejected medical_request_failed medical_rejected routing_failed
        rejected approved policy_number_generation_failed issuance_failed issued pending failed
        active :
      ResultStatus

pub record PolicyIssuanceResult : Type 0 where
  pub proposal_number : String
  pub policy_number : String
  pub status : ResultStatus
  pub error : String

pub record QrDecisionSignal : Type 0 where
  pub decision : String
  pub reviewer_id : String
  pub comments : String

pub record ApproverDecisionSignal : Type 0 where
  pub decision : String
  pub approver_id : String
  pub comments : String

pub record MedicalResultSignal : Type 0 where
  pub decision : String
  pub rejection_reason : String
  pub examination_date : Time
  pub certificate_id : String

-- What a selector sees first: the signal or the timer; or nothing yet.
pub data Arrival (A : Type 0) : Type 0 where
  signal : A → Arrival A
  timer : Arrival A
  nothing : Arrival A

pub record IssuanceEnv : Type 0 where
  pub database : DatabaseEnv
  -- strconv.ParseInt(s, 10, 64): the value, and whether there is an error
  pub parse_int : String → ℤ × Bool
  -- `%v` of the validation's errors
  pub errors_text : List String → String
  pub routing_comment : ℤ → ℕ × String → String
  -- IsValid and Errors; IsEligible and RejectReason
  pub validated : ℕ → Answer (Bool × List String)
  pub eligible : ℕ → Answer (Bool × String)
  pub premium : ℕ → Answer PremiumResult
  pub saved : ℕ → Option String
  pub numbered : ℕ → Answer String
  pub recorded : ℕ → Option String
  -- BondDocumentID
  pub bond : ℕ → Answer String
  -- The rounds of the quality review, and the DataEntryID of each submission
  pub reviews : List (Arrival QrDecisionSignal)
  pub submissions : List ℤ
  pub medical : Arrival MedicalResultSignal
  pub approver : Arrival ApproverDecisionSignal

-- `return result, err`; `return nil, err`; or a wait.
pub data IssuanceOutcome : Type 0 where
  returned : PolicyIssuanceResult → Option String → Issuance → IssuanceOutcome
  broken : String → Issuance → IssuanceOutcome
  waiting : Issuance → IssuanceOutcome

pub data QcOutcome : Type 0 where
  passed : Issuance → QcOutcome
  turned_down : Issuance → QcOutcome
  broken : String → Issuance → QcOutcome
  waiting : Issuance → QcOutcome

-- The cases of the switch on the reviewer's decision.
pub data QcDecision : Type 0 where
  approved returned rejected other : QcDecision

unfoldable pub qc_decision : String → QcDecision
qc_decision text =
    if str_eq text "APPROVED"
    then QcDecision.approved
    else if str_eq text "RETURNED"
    then QcDecision.returned
    else if str_eq text "REJECTED"
    then QcDecision.rejected
    else if str_eq text "TIMEOUT"
    then QcDecision.rejected
    else QcDecision.other

abbrev pub timed_out_review : QrDecisionSignal
timed_out_review = record { decision = "TIMEOUT"; reviewer_id = ""; comments = "" }

abbrev pub timed_out_approval : ApproverDecisionSignal
timed_out_approval = record { decision = "TIMEOUT"; approver_id = ""; comments = "" }

abbrev pub timed_out_medical : MedicalResultSignal
timed_out_medical = record {
  decision = "TIMEOUT";
  rejection_reason = "";
  examination_date = 0;
  certificate_id = "";
}

-- `currentStatus = …`
abbrev pub at_step : String → Issuance → Issuance
at_step text c = record c { query_status = text }

module _ (env : IssuanceEnv) (input : PolicyIssuanceInput) where
  unfoldable pub change_status : ProposalStatus → String → ℤ → Issuance → Issuance × Done
  change_status to comments by = execute (
      update_proposal_status_activity env.database (record {
        proposal_number = input.proposal_number;
        status = to;
        comments = comments;
        changed_by = by;
      }))

  -- "RETURNED": to the data entry and back, once it has submitted.
  unfoldable pub rework :
      QrDecisionSignal → ℤ → List ℤ → (List ℤ → Issuance → QcOutcome) → Issuance → QcOutcome
  rework sig reviewer submissions go_on c =
      let (c1, sent_back) =
        change_status ProposalStatus.qc_returned ("QC returned to data entry: " <> sig.comments)
          reviewer (at_step "QC_RETURNED" c) in
      let (c2, reopened) =
        change_status ProposalStatus.data_entry "Returned to data entry for correction" reviewer
          c1 in
      elim sent_back [
        | Answer.failed err ↦ QcOutcome.broken err c1
        | Answer.result _ ↦ elim reopened [
          | Answer.failed err ↦ QcOutcome.broken err c2
          | Answer.result _ ↦ elim submissions [
            | [] ↦ QcOutcome.waiting (at_step "DATA_ENTRY" c2)
            | data_entry_id ∷ rest ↦
                let (c3, resubmitted) =
                  change_status ProposalStatus.qc_pending "Resubmitted for QC review" data_entry_id
                    (did IssuanceCall.signal_seen (at_step "DATA_ENTRY" c2)) in
                elim resubmitted [
                  | Answer.failed err ↦ QcOutcome.broken err c3
                  | Answer.result _ ↦ go_on rest (at_step "QC_PENDING" c3)
                ]
          ]
        ]
      ]

  -- One decision of the quality review, with what the next round does.
  unfoldable pub review :
      QrDecisionSignal → List ℤ → (List ℤ → Issuance → QcOutcome) → Issuance → QcOutcome
  review sig submissions go_on c =
      let (reviewer, refused) = env.parse_int sig.reviewer_id in
      if refused && not (str_eq sig.decision "TIMEOUT")
      then QcOutcome.broken "invalid reviewer id" c
      else elim (qc_decision sig.decision) [
        | QcDecision.approved ↦
            let (c', answer) =
              change_status ProposalStatus.qc_approved ("QC approved: " <> sig.comments) reviewer
                (at_step "QC_APPROVED" c) in
            elim answer [
              | Answer.failed err ↦ QcOutcome.broken err c'
              | Answer.result _ ↦ QcOutcome.passed c'
            ]
        | QcDecision.returned ↦ rework sig reviewer submissions go_on c
        | QcDecision.rejected ↦
            QcOutcome.turned_down
              (change_status ProposalStatus.qc_rejected ("QC rejected: " <> sig.comments) reviewer
                c).0
        | QcDecision.other ↦ go_on submissions c
      ]

  -- Step 4.
  unfoldable pub quality_review : List (Arrival QrDecisionSignal) → List ℤ → Issuance → QcOutcome
  quality_review [] submissions c = QcOutcome.waiting c
  quality_review (Arrival.nothing ∷ _) submissions c = QcOutcome.waiting c
  quality_review (Arrival.timer ∷ reviews) submissions c =
      review timed_out_review submissions (quality_review reviews) (did IssuanceCall.timer_fired c)
  quality_review (Arrival.signal sig ∷ reviews) submissions c =
      review sig submissions (quality_review reviews) (did IssuanceCall.signal_seen c)

  abbrev pub new_result : PolicyIssuanceResult
  new_result = record {
    proposal_number = input.proposal_number;
    policy_number = "";
    status = ResultStatus.no_status;
    error = "";
  }

  -- result.Status and result.Error are set, and no error is returned.
  abbrev pub stop : ResultStatus → String → Issuance → IssuanceOutcome
  stop status error c =
      IssuanceOutcome.returned (record new_result { status = status; error = error }) none c
