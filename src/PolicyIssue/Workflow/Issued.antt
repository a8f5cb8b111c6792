-- ===== src/PolicyIssue/Workflow/Issued.antt =====
-- PolicyIssuanceWorkflow where nothing fails.
use text.Mathlib.Text.{◌==◌ as str_eq}
use revival_integration.Base.{
  ◌≡◌, refl, ap, ◌∙◌, true, false, none, List, [], ◌∷◌, String, ◌<>◌, ℤ, ℕ, is_zero, arith,
}
use revival_integration.Revival.Case.{Answer}
use revival_integration.PolicyIssue.Proposal.{ProposalStatus, is_valid_status_transition}
use revival_integration.PolicyIssue.Calls.{ProposalRow, PremiumResult, IssuanceCall}
use revival_integration.PolicyIssue.Activities.{
  Issuance, Fault, done, did, execute, retried, update_status, with_proposal,
  update_proposal_status_activity, route_to_approver_activity, is_medical_required,
}
use revival_integration.PolicyIssue.Activities.Updates.{medical_not_requested}
use revival_integration.PolicyIssue.Issuance.{
  PolicyIssuanceInput, ResultStatus, QrDecisionSignal, ApproverDecisionSignal, Arrival, IssuanceEnv,
  IssuanceOutcome, QcOutcome, qc_decision, at_step, change_status, review, quality_review,
}
use revival_integration.PolicyIssue.Workflow.{
  conclude, record_issuance, issue, take_decision, after_routing, await_approver, after_request,
  underwrite, after_review, save_price, price, assess, policy_issuance_workflow,
}

-- Every activity answers well.
pub record IsUndisturbed (env : IssuanceEnv) (number : String) : Type 0 where
  pub found : (n : ℕ) → env.database.found n ≡ none
  pub faultless : (n : ℕ) → env.database.fault n ≡ Fault.no_fault
  pub config : ℕ × String
  pub routed : (n : ℕ) → env.database.routing n ≡ Answer.result config
  pub valid : (n : ℕ) → env.validated n ≡ Answer.result (true, [])
  pub eligible : (n : ℕ) → env.eligible n ≡ Answer.result (true, "")
  pub premium : PremiumResult
  pub priced : (n : ℕ) → env.premium n ≡ Answer.result premium
  pub saved : (n : ℕ) → env.saved n ≡ none
  pub numbered : (n : ℕ) → env.numbered n ≡ Answer.result number
  pub recorded : (n : ℕ) → env.recorded n ≡ none

-- The result says ISSUED, and so does the proposal.
unfoldable pub IsIssued : String → IssuanceOutcome → Type 0
IsIssued number (IssuanceOutcome.returned r err c) =
    (r.status ≡ ResultStatus.issued)
    × (r.policy_number ≡ number)
    × (err ≡ none)
    × (c.row.status ≡ ProposalStatus.issued)
IsIssued number (IssuanceOutcome.broken _ _) = ⊥
IsIssued number (IssuanceOutcome.waiting _) = ⊥

-- The first signal of the quality review approves, and so does the approver's; both name someone by
-- a number that is not 0.
pub record IsGranted (env : IssuanceEnv) : Type 0 where
  pub review : QrDecisionSignal
  pub later : List (Arrival QrDecisionSignal)
  pub reviewed : env.reviews ≡ Arrival.signal review ∷ later
  pub review_approved : str_eq review.decision "APPROVED" ≡ true
  pub reviewer : ℤ
  pub review_parsed : env.parse_int review.reviewer_id ≡ (reviewer, false)
  pub reviewer_named : is_zero reviewer ≡ false
  pub decision : ApproverDecisionSignal
  pub decided : env.approver ≡ Arrival.signal decision
  pub decision_approved : str_eq decision.decision "APPROVED" ≡ true
  pub approver : ℤ
  pub decision_parsed : env.parse_int decision.approver_id ≡ (approver, false)
  pub approver_named : is_zero approver ≡ false

module _ (env : IssuanceEnv) (input : PolicyIssuanceInput) (number : String)
    (calm : IsUndisturbed env number) where
  change_status_calm :
      (to : ProposalStatus) (comments : String) (by : ℤ) (c : Issuance)
      → is_zero by ≡ false
      → is_valid_status_transition c.row.status to ≡ true
      → ((change_status env input to comments by c).1 ≡ done)
        × ((change_status env input to comments by c).0.row.status ≡ to)
  unfolding change_status retried update_proposal_status_activity with_proposal update_status
  change_status_calm to comments by c named valid =
      (grind (arith, calm.found, calm.faultless), grind (arith, calm.found, calm.faultless))

  route_calm :
      (comment : ℕ × String → String) (sum_assured : ℤ) (c : Issuance)
      → c.row.status ≡ ProposalStatus.qc_approved
      → let routed = execute (route_to_approver_activity env.database comment sum_assured) c in
        (routed.1 ≡ Answer.result calm.config)
        × (routed.0.row.status ≡ ProposalStatus.approval_pending)
  unfolding retried route_to_approver_activity with_proposal update_status
      is_valid_status_transition
  route_calm comment sum_assured c s = (
    grind (arith, calm.found, calm.faultless, calm.routed),
    grind (arith, calm.found, calm.faultless, calm.routed),
  )

  conclude_calm :
      (by : ℤ) (bond : Answer String) (c : Issuance)
      → c.row.status ≡ ProposalStatus.issued
      → IsIssued number (conclude env input number by bond c)
  unfolding conclude IsIssued
  conclude_calm by (Answer.result document) c s = (refl, refl, refl, s)
  conclude_calm by (Answer.failed err) c s = (refl, refl, refl, s)

  record_issuance_calm :
      (by : ℤ) (c : Issuance)
      → is_zero by ≡ false
      → c.row.status ≡ ProposalStatus.approved
      → IsIssued number (record_issuance env input number by c)
  unfolding record_issuance is_valid_status_transition
  record_issuance_calm by c named s =
      rw (calm.recorded _, record_issuance)
        (conclude_calm by _ _ (change_status_calm ProposalStatus.issued _ by _ named (rw s refl)).1)

  issue_calm :
      (by : ℤ) (c : Issuance)
      → is_zero by ≡ false
      → c.row.status ≡ ProposalStatus.approved
      → IsIssued number (issue env input by c)
  unfolding issue
  issue_calm by c named s = rw (calm.numbered _, issue) (record_issuance_calm by _ named s)

  take_decision_calm :
      (sig : ApproverDecisionSignal) (by : ℤ) (c : Issuance)
      → str_eq sig.decision "APPROVED" ≡ true
      → env.parse_int sig.approver_id ≡ (by, false)
      → is_zero by ≡ false
      → c.row.status ≡ ProposalStatus.approval_pending
      → IsIssued number (take_decision env input sig c)
  unfolding take_decision is_valid_status_transition
  take_decision_calm sig by c approved parsed named s =
      rw (parsed, approved)
        (issue_calm by _ named
          (change_status_calm ProposalStatus.approved _ by c named (rw s refl)).1)

  module _ (granted : IsGranted env) where
    after_routing_calm :
        (r : Issuance × Answer (ℕ × String))
        → r.1 ≡ Answer.result calm.config
        → r.0.row.status ≡ ProposalStatus.approval_pending
        → IsIssued number (after_routing env input r)
    unfolding after_routing
    after_routing_calm (c, Answer.failed err) a s = absurd (cc)
    after_routing_calm (c, Answer.result _) a s =
        rw (granted.decided, after_routing)
          (take_decision_calm granted.decision granted.approver _ granted.decision_approved
            granted.decision_parsed granted.approver_named s)

    await_approver_calm :
        (c : Issuance)
        → c.row.status ≡ ProposalStatus.qc_approved
        → IsIssued number (await_approver env input c)
    unfolding await_approver
    await_approver_calm c s =
        let routed =
          route_calm (env.routing_comment input.sum_assured) input.sum_assured
            (at_step "APPROVAL_PENDING" c) s in
        after_routing_calm _ routed.0 routed.1

    underwrite_calm :
        (c : Issuance)
        → is_medical_required input.age_at_entry input.sum_assured ≡ false
        → c.row.status ≡ ProposalStatus.qc_approved
        → IsIssued number (underwrite env input c)
    unfolding underwrite after_request
    underwrite_calm c free s =
        rw
          (medical_not_requested env.database input.age_at_entry input.sum_assured
            (at_step "PENDING_MEDICAL" c) free)
          (await_approver_calm _ s)

    -- The review by that signal.
    review_passes :
        (submissions : List ℤ) (go_on : List ℤ → Issuance → QcOutcome) (c : Issuance)
        → c.row.status ≡ ProposalStatus.qc_pending
        → (c' : Issuance) × (review env input granted.review submissions go_on c
            ≡ QcOutcome.passed c')
          × (c'.row.status ≡ ProposalStatus.qc_approved)
    unfolding review qc_decision is_valid_status_transition
    review_passes submissions go_on c s =
        let comments = "QC approved: " <> granted.review.comments in
        let before = at_step "QC_APPROVED" c in
        let ok =
          change_status_calm ProposalStatus.qc_approved comments granted.reviewer before
            granted.reviewer_named (rw s refl) in
        (
          (change_status env input ProposalStatus.qc_approved comments granted.reviewer before).0,
          ground (arith, ok.0, granted.review_parsed, granted.review_approved),
          ok.1,
        )

    after_review_calm :
        is_medical_required input.age_at_entry input.sum_assured ≡ false
        → (c : Issuance) → c.row.status ≡ ProposalStatus.qc_pending
        → IsIssued number
            (after_review env input (quality_review env input env.reviews env.submissions c))
    unfolding after_review quality_review
    after_review_calm free c s =
        let go_on = quality_review env input granted.later in
        let (c', passed, s') =
          review_passes env.submissions go_on (did IssuanceCall.signal_seen c) s in
        let whole =
          ap (λ reviews. quality_review env input reviews env.submissions c) granted.reviewed
          ∙ passed in
        rw (whole, after_review) (underwrite_calm c' free s')

    price_calm :
        is_medical_required input.age_at_entry input.sum_assured ≡ false
        → (c : Issuance) → c.row.status ≡ ProposalStatus.qc_pending
        → IsIssued number (price env input c)
    unfolding price save_price
    price_calm free c s =
        rw (calm.priced _, price, calm.saved _, save_price) (after_review_calm free _ s)

    -- A proposal that needs no medical examination, is submitted for the quality check, and is
    -- approved by the reviewer and by the approver, under numbers other than 0, is issued where no
    -- activity fails: the result and the proposal in the database both say ISSUED.
    pub policy_issuance_workflow-IsIssued :
        is_medical_required input.age_at_entry input.sum_assured ≡ false
        → (row : ProposalRow) → row.status ≡ ProposalStatus.qc_pending
        → IsIssued number (policy_issuance_workflow env input row)
    unfolding policy_issuance_workflow assess
    policy_issuance_workflow-IsIssued free row s =
        rw (calm.valid _, policy_issuance_workflow, calm.eligible _, assess) (price_calm free _ s)
