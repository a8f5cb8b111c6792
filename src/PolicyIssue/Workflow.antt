-- ===== src/PolicyIssue/Workflow.antt =====
-- PolicyIssuanceWorkflow of workflows/policy_issuance_workflow.go: the steps before and after the
-- quality review. Errors that the workflow only logs have no answer here.
pub mod Medical
pub mod Soundness
pub mod Issued
use text.Mathlib.Text.{◌==◌ as str_eq}
use revival_integration.Base.{
  ℕ, Bool, true, false, Option, none, some, List, [], ◌∷◌, String, ◌<>◌, ℤ, pos, if◌then◌else◌,
  length,
}
use revival_integration.Revival.Case.{Answer}
use revival_integration.PolicyIssue.Proposal.{ProposalStatus}
use revival_integration.PolicyIssue.Calls.{ProposalRow, PremiumResult, IssuanceCall}
use revival_integration.PolicyIssue.Activities.{
  Issuance, did, execute, request_medical_review_activity, route_to_approver_activity,
}
use revival_integration.PolicyIssue.Issuance.{
  PolicyIssuanceInput, ResultStatus, PolicyIssuanceResult, ApproverDecisionSignal,
  MedicalResultSignal, Arrival, IssuanceEnv, IssuanceOutcome, QcOutcome, timed_out_approval,
  timed_out_medical, at_step, change_status, quality_review, new_result, stop,
}

module _ (env : IssuanceEnv) (input : PolicyIssuanceInput) where
  -- Steps 8b to 10.
  unfoldable pub conclude : String → ℤ → Answer String → Issuance → IssuanceOutcome
  conclude number approver bond c =
      let bonded : Issuance = elim bond [
        | Answer.failed _ ↦ c
        | Answer.result document ↦
            did (IssuanceCall.update_bond_details input.proposal_id document approver) c
      ] in
      let notified =
        did
          (IssuanceCall.send_notification input.proposal_number
            ("Your policy has been issued with number: " <> number))
          bonded in
      let started = did (IssuanceCall.start_pm_lifecycle number input.policy_type) notified in
      IssuanceOutcome.returned
        (record (new_result env input) { policy_number = number; status = ResultStatus.issued })
        none started

  -- Steps 7b and 8. An error of the update to ISSUED is only logged.
  unfoldable pub record_issuance : String → ℤ → Issuance → IssuanceOutcome
  record_issuance number approver c =
      let asked =
        did
          (IssuanceCall.create_policy_issuance input.proposal_id number input.proposal_date
            input.policy_term)
          (at_step "CREATING_ISSUANCE_RECORD" c) in
      elim (env.recorded (length asked.calls)) [
        | some err ↦
            IssuanceOutcome.returned
              (record (new_result env input) {
                policy_number = number;
                status = ResultStatus.issuance_failed;
                error = err;
              })
              none asked
        | none ↦
            let issued =
              (change_status env input ProposalStatus.issued ("Policy issued: " <> number) approver
                asked).0 in
            let bonded =
              did (IssuanceCall.generate_bond input.proposal_number number)
                (at_step "GENERATING_BOND" issued) in
            conclude number approver (env.bond (length bonded.calls)) bonded
      ]

  -- Step 7.
  unfoldable pub issue : ℤ → Issuance → IssuanceOutcome
  issue approver c =
      let asked =
        did
          (IssuanceCall.generate_policy_number input.proposal_number input.policy_type
            input.insured_state)
          (at_step "GENERATING_POLICY_NUMBER" c) in
      elim (env.numbered (length asked.calls)) [
        | Answer.failed err ↦ stop env input ResultStatus.policy_number_generation_failed err asked
        | Answer.result number ↦ record_issuance number approver asked
      ]

  -- The approver's decision. Errors of the updates are dropped.
  unfoldable pub take_decision : ApproverDecisionSignal → Issuance → IssuanceOutcome
  take_decision sig c =
      let (approver, refused) = env.parse_int sig.approver_id in
      if refused
      then IssuanceOutcome.returned (new_result env input) (some "invalid approver_id") c
      else if str_eq sig.decision "APPROVED"
      then issue approver (
          at_step "APPROVED"
            (change_status env input ProposalStatus.approved ("Approved: " <> sig.comments) approver
              c).0)
      else IssuanceOutcome.returned
          (record (new_result env input) { status = ResultStatus.rejected })
          (some "proposal rejected by approver")
          (change_status env input ProposalStatus.rejected
            ("Rejected by approver: " <> sig.comments) approver c).0

  -- What the router answers, and the wait for the approver.
  unfoldable pub after_routing : Issuance × Answer (ℕ × String) → IssuanceOutcome
  after_routing (c, Answer.failed err) = stop env input ResultStatus.routing_failed err c
  after_routing (c, Answer.result _) = elim env.approver [
    | Arrival.nothing ↦ IssuanceOutcome.waiting c
    | Arrival.timer ↦ take_decision timed_out_approval (did IssuanceCall.timer_fired c)
    | Arrival.signal sig ↦ take_decision sig (did IssuanceCall.signal_seen c)
  ]

  -- Step 6.
  unfoldable pub await_approver : Issuance → IssuanceOutcome
  await_approver c = after_routing (
      execute
        (route_to_approver_activity env.database (env.routing_comment input.sum_assured)
          input.sum_assured)
        (at_step "APPROVAL_PENDING" c))

  -- The medical result; errors of the updates, which name nobody, are dropped.
  unfoldable pub examine : MedicalResultSignal → Issuance → IssuanceOutcome
  examine sig c =
      if str_eq sig.decision "APPROVED"
      then await_approver (
          at_step "MEDICAL_APPROVED"
            (change_status env input ProposalStatus.medical_approved "Medical examination approved"
              (pos 0) c).0)
      else IssuanceOutcome.returned
          (record (new_result env input) { status = ResultStatus.medical_rejected })
          (some ("medical examination rejected: " <> sig.rejection_reason))
          (change_status env input ProposalStatus.medical_rejected
            ("Medical examination rejected: " <> sig.rejection_reason) (pos 0) c).0

  -- What the medical review answers, and the wait for the result.
  unfoldable pub after_request : Issuance × Answer Bool → IssuanceOutcome
  after_request (c, Answer.failed err) = stop env input ResultStatus.medical_request_failed err c
  after_request (c, Answer.result required) =
      if required
      then elim env.medical [
        | Arrival.nothing ↦ IssuanceOutcome.waiting c
        | Arrival.timer ↦ examine timed_out_medical (did IssuanceCall.timer_fired c)
        | Arrival.signal sig ↦ examine sig (did IssuanceCall.signal_seen c)
      ]
      else await_approver c

  -- Step 5.
  unfoldable pub underwrite : Issuance → IssuanceOutcome
  underwrite c = after_request (
      execute (request_medical_review_activity env.database input.age_at_entry input.sum_assured)
        (at_step "PENDING_MEDICAL" c))

  unfoldable pub after_review : QcOutcome → IssuanceOutcome
  after_review (QcOutcome.passed c) = underwrite c
  after_review (QcOutcome.turned_down c) = stop env input ResultStatus.qc_rejected "" c
  after_review (QcOutcome.broken err c) = IssuanceOutcome.broken err c
  after_review (QcOutcome.waiting c) = IssuanceOutcome.waiting c

  -- Step 3b, and the quality review.
  unfoldable pub save_price : PremiumResult → Issuance → IssuanceOutcome
  save_price premium c =
      let asked = did (IssuanceCall.save_premium input.proposal_number premium) c in
      elim (env.saved (length asked.calls)) [
        | some err ↦ stop env input ResultStatus.save_premium_failed err asked
        | none ↦
            after_review
              (quality_review env input env.reviews env.submissions (at_step "QC_PENDING" asked))
      ]

  -- Step 3.
  unfoldable pub price : Issuance → IssuanceOutcome
  price c =
      let asked =
        did
          (IssuanceCall.calculate_premium input.proposal_number input.age_at_entry input.gender
            input.policy_term input.sum_assured input.premium_payment_frequency)
          (at_step "CALCULATING_PREMIUM" c) in
      elim (env.premium (length asked.calls)) [
        | Answer.failed err ↦ stop env input ResultStatus.premium_calc_failed err asked
        | Answer.result premium ↦ save_price premium asked
      ]

  -- Step 2.
  unfoldable pub assess : Issuance → IssuanceOutcome
  assess c =
      let asked =
        did (IssuanceCall.check_eligibility input.proposal_number input.age_at_entry)
          (at_step "CHECKING_ELIGIBILITY" c) in
      elim (env.eligible (length asked.calls)) [
        | Answer.failed err ↦ stop env input ResultStatus.eligibility_failed err asked
        | Answer.result (eligible, reason) ↦
            if eligible then price asked else stop env input ResultStatus.not_eligible reason asked
      ]

  unfoldable pub policy_issuance_workflow : ProposalRow → IssuanceOutcome
  policy_issuance_workflow row =
      let asked : Issuance = record {
        row = row;
        query_status = "VALIDATING";
        calls = IssuanceCall.validate_proposal input.proposal_number ∷ [];
      } in
      elim (env.validated (length asked.calls)) [
        | Answer.failed err ↦ stop env input ResultStatus.validation_failed err asked
        | Answer.result (valid, errors) ↦
            if valid
            then assess asked
            else stop env input ResultStatus.validation_failed
                ("Validation errors: " <> env.errors_text errors) asked
      ]
