-- ===== src/PolicyIssue/Workflow/Soundness.antt =====
-- What stands behind a policy that PolicyIssuanceWorkflow issues.
use text.Mathlib.Text.{◌==◌ as str_eq}
use revival_integration.Base.{
  ◌≡◌, inl, inr, Bool, true, false, List, [], ◌∷◌, String, ℤ, ℕ, any, arith, Bool-cases,
}
use revival_integration.Revival.Case.{Answer}
use revival_integration.PolicyIssue.Calls.{ProposalRow}
use revival_integration.PolicyIssue.Activities.{Issuance, is_medical_required}
use revival_integration.PolicyIssue.Issuance.{
  PolicyIssuanceInput, ResultStatus, QrDecisionSignal, ApproverDecisionSignal, MedicalResultSignal,
  Arrival, IssuanceEnv, IssuanceOutcome, QcOutcome, qc_decision, timed_out_review, rework, review,
  quality_review,
}
use revival_integration.PolicyIssue.Workflow.Medical.{NotIssued, required-NotIssued}
use revival_integration.PolicyIssue.Workflow.{
  take_decision, after_routing, await_approver, examine, after_request, underwrite, after_review,
  save_price, price, assess, policy_issuance_workflow,
}

-- A signal that approves the quality review.
abbrev pub is_approving : Arrival QrDecisionSignal → Bool
is_approving (Arrival.signal sig) = str_eq sig.decision "APPROVED"
is_approving _ = false

-- No examination is required, and the reviewer and the approver have both approved.
unfoldable pub BothApproved : IssuanceEnv → PolicyIssuanceInput → Type 0
BothApproved env input =
    (is_medical_required input.age_at_entry input.sum_assured ≡ false)
    × (any is_approving env.reviews ≡ true)
    × (sig : ApproverDecisionSignal) × (env.approver ≡ Arrival.signal sig)
    × (str_eq sig.decision "APPROVED" ≡ true)

-- If the policy is issued, it is issued on such grounds.
unfoldable pub IsIssuedSoundly : IssuanceEnv → PolicyIssuanceInput → IssuanceOutcome → Type 0
IsIssuedSoundly env input (IssuanceOutcome.returned r err c) =
    r.status ≡ ResultStatus.issued → BothApproved env input
IsIssuedSoundly env input (IssuanceOutcome.broken _ _) = Unit
IsIssuedSoundly env input (IssuanceOutcome.waiting _) = Unit

abbrev HasPassed : List (Arrival QrDecisionSignal) → QcOutcome → Type 0
HasPassed reviews (QcOutcome.passed _) = any is_approving reviews ≡ true
HasPassed reviews _ = Unit

module _ (env : IssuanceEnv) (input : PolicyIssuanceInput) where
  both : (o : IssuanceOutcome) → BothApproved env input → IsIssuedSoundly env input o
  unfolding IsIssuedSoundly
  both (IssuanceOutcome.returned r err c) h = λ _. h
  both (IssuanceOutcome.broken _ _) h = tt
  both (IssuanceOutcome.waiting _) h = tt

  -- The routing, where the reviewer has approved.
  after_routing-IsIssuedSoundly :
      (r : Issuance × Answer (ℕ × String))
      → is_medical_required input.age_at_entry input.sum_assured ≡ false
      → any is_approving env.reviews ≡ true
      → IsIssuedSoundly env input (after_routing env input r)
  unfolding after_routing take_decision IsIssuedSoundly BothApproved
  after_routing-IsIssuedSoundly (c, Answer.failed err) free h = λ e. cc
  after_routing-IsIssuedSoundly (c, Answer.result _) free h = grind (arith, both)

  await_approver-IsIssuedSoundly :
      (c : Issuance)
      → is_medical_required input.age_at_entry input.sum_assured ≡ false
      → any is_approving env.reviews ≡ true
      → IsIssuedSoundly env input (await_approver env input c)
  unfolding await_approver
  await_approver-IsIssuedSoundly c free h = after_routing-IsIssuedSoundly _ free h

  examine-IsIssuedSoundly :
      (sig : MedicalResultSignal) (c : Issuance)
      → is_medical_required input.age_at_entry input.sum_assured ≡ false
      → any is_approving env.reviews ≡ true
      → IsIssuedSoundly env input (examine env input sig c)
  unfolding examine IsIssuedSoundly
  examine-IsIssuedSoundly sig c free h = grind (arith, await_approver-IsIssuedSoundly)

  after_request-IsIssuedSoundly :
      (r : Issuance × Answer Bool)
      → is_medical_required input.age_at_entry input.sum_assured ≡ false
      → any is_approving env.reviews ≡ true
      → IsIssuedSoundly env input (after_request env input r)
  unfolding after_request IsIssuedSoundly
  after_request-IsIssuedSoundly (c, Answer.failed err) free h = λ e. cc
  after_request-IsIssuedSoundly (c, Answer.result _) free h =
      grind (arith, await_approver-IsIssuedSoundly, examine-IsIssuedSoundly)

  rework-HasPassed :
      (sig : QrDecisionSignal) (by : ℤ) (submissions : List ℤ)
      (go_on : List ℤ → Issuance → QcOutcome) (c : Issuance)
      (reviews : List (Arrival QrDecisionSignal))
      → ((l : List ℤ) (c' : Issuance) → HasPassed reviews (go_on l c'))
      → HasPassed reviews (rework env input sig by submissions go_on c)
  unfolding rework
  rework-HasPassed sig by submissions go_on c reviews h = grind (arith, h)

  review-HasPassed :
      (sig : QrDecisionSignal) (submissions : List ℤ) (go_on : List ℤ → Issuance → QcOutcome)
      (c : Issuance) (reviews : List (Arrival QrDecisionSignal))
      → ((l : List ℤ) (c' : Issuance) → HasPassed reviews (go_on l c'))
      → HasPassed (Arrival.signal sig ∷ reviews) (review env input sig submissions go_on c)
  unfolding review qc_decision
  review-HasPassed sig submissions go_on c reviews h = grind (
    arith,
    h,
    rework-HasPassed sig (env.parse_int sig.reviewer_id).0 submissions go_on c reviews h,
  )

  quality_review-HasPassed :
      (reviews : List (Arrival QrDecisionSignal)) (submissions : List ℤ) (c : Issuance)
      → HasPassed reviews (quality_review env input reviews submissions c)
  unfolding quality_review
  quality_review-HasPassed [] submissions c = tt
  quality_review-HasPassed (Arrival.nothing ∷ reviews) submissions c = tt
  quality_review-HasPassed (Arrival.timer ∷ reviews) submissions c =
      review-HasPassed timed_out_review submissions (quality_review env input reviews) _ reviews
        (quality_review-HasPassed reviews)
  quality_review-HasPassed (Arrival.signal sig ∷ reviews) submissions c =
      review-HasPassed sig submissions (quality_review env input reviews) _ reviews
        (quality_review-HasPassed reviews)

  not_issued : (o : IssuanceOutcome) → NotIssued o → IsIssuedSoundly env input o
  unfolding IsIssuedSoundly
  not_issued (IssuanceOutcome.returned r err c) h = λ e. absurd (h e)
  not_issued (IssuanceOutcome.broken _ _) h = tt
  not_issued (IssuanceOutcome.waiting _) h = tt

  underwrite-IsIssuedSoundly :
      (c : Issuance)
      → any is_approving env.reviews ≡ true
      → IsIssuedSoundly env input (underwrite env input c)
  underwrite-IsIssuedSoundly c h =
      elim (Bool-cases (is_medical_required input.age_at_entry input.sum_assured)) [
        | inl needed ↦ not_issued _ (required-NotIssued env input needed c)
        | inr free ↦ unfold underwrite in after_request-IsIssuedSoundly _ free h
      ]

  after_review-IsIssuedSoundly :
      (o : QcOutcome)
      → HasPassed env.reviews o
      → IsIssuedSoundly env input (after_review env input o)
  unfolding after_review IsIssuedSoundly
  after_review-IsIssuedSoundly (QcOutcome.passed c) h = underwrite-IsIssuedSoundly c h
  after_review-IsIssuedSoundly (QcOutcome.turned_down c) h = λ e. cc
  after_review-IsIssuedSoundly (QcOutcome.broken err c) h = tt
  after_review-IsIssuedSoundly (QcOutcome.waiting c) h = tt

  -- A policy is issued only where no medical examination is required, one of the signals of the
  -- quality review approves, and the signal that ends the wait for the approver approves.
  pub policy_issuance_workflow-IsIssuedSoundly :
      (row : ProposalRow) → IsIssuedSoundly env input (policy_issuance_workflow env input row)
  unfolding policy_issuance_workflow assess price save_price IsIssuedSoundly
  policy_issuance_workflow-IsIssuedSoundly row =
      let reviewed = λ (c : Issuance).
        after_review-IsIssuedSoundly (quality_review env input env.reviews env.submissions c)
          (quality_review-HasPassed env.reviews env.submissions c) in
      grind (arith, reviewed)
