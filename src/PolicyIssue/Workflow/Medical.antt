-- ===== src/PolicyIssue/Workflow/Medical.antt =====
-- PolicyIssuanceWorkflow where a medical examination is required.
use text.Mathlib.Text.{◌==◌ as str_eq}
use revival_integration.Base.{
  ◌≡◌, refl, ap, ◌∙◌, ◌⊎◌, inl, inr, ◌≢◌, Bool, true, none, ℕ, String, pos, is_zero, arith,
  Bool-cases,
}
use revival_integration.Revival.Case.{Answer}
use revival_integration.PolicyIssue.Proposal.{ProposalStatus, is_valid_status_transition}
use revival_integration.PolicyIssue.Calls.{ProposalRow, UpdateStatusInput, IssuanceCall}
use revival_integration.PolicyIssue.Activities.{
  Issuance, did, execute, is_medical_required, update_proposal_status_activity,
}
use revival_integration.PolicyIssue.Activities.Updates.{
  Ok, Stuck, unnamed_update, medical_requested, unroutable,
}
use revival_integration.PolicyIssue.Issuance.{
  PolicyIssuanceInput, ResultStatus, MedicalResultSignal, Arrival, IssuanceEnv, IssuanceOutcome,
  at_step, change_status,
}
use revival_integration.PolicyIssue.Workflow.{
  after_routing, await_approver, examine, after_request, underwrite,
}

-- The router has refused: ROUTING_FAILED, no error, and the proposal still PENDING_MEDICAL.
unfoldable pub IsHeldUp : IssuanceOutcome → Type 0
IsHeldUp (IssuanceOutcome.returned r err c) =
    (r.status ≡ ResultStatus.routing_failed)
    × (err ≡ none)
    × (c.row.status ≡ ProposalStatus.pending_medical)
IsHeldUp (IssuanceOutcome.broken _ _) = ⊥
IsHeldUp (IssuanceOutcome.waiting _) = ⊥

-- The request for the examination has failed.
unfoldable pub IsRequestFailed : IssuanceOutcome → Type 0
IsRequestFailed (IssuanceOutcome.returned r err c) =
    (r.status ≡ ResultStatus.medical_request_failed) × (err ≡ none)
IsRequestFailed (IssuanceOutcome.broken _ _) = ⊥
IsRequestFailed (IssuanceOutcome.waiting _) = ⊥

-- The result does not say ISSUED.
abbrev pub NotIssued : IssuanceOutcome → Type 0
NotIssued (IssuanceOutcome.returned r _ _) = r.status ≢ ResultStatus.issued
NotIssued (IssuanceOutcome.broken _ _) = Unit
NotIssued (IssuanceOutcome.waiting _) = Unit

held_up-NotIssued : (o : IssuanceOutcome) → IsHeldUp o → NotIssued o
unfolding IsHeldUp
held_up-NotIssued (IssuanceOutcome.returned r err c) (e, _, _) = λ i. cc
held_up-NotIssued (IssuanceOutcome.broken _ _) h = tt
held_up-NotIssued (IssuanceOutcome.waiting _) h = tt

module _ (env : IssuanceEnv) (input : PolicyIssuanceInput) where
  refused_routing :
      (row : ProposalRow) (r : Issuance × Answer (ℕ × String))
      → row.status ≡ ProposalStatus.pending_medical
      → Stuck (λ c. c.row ≡ row) r
      → IsHeldUp (after_routing env input r)
  unfolding after_routing IsHeldUp
  refused_routing row (c, Answer.result _) p k = absurd k
  refused_routing row (c, Answer.failed err) p k = (refl, refl, ground arith)

  held_at_routing :
      (c : Issuance)
      → c.row.status ≡ ProposalStatus.pending_medical
      → IsHeldUp (await_approver env input c)
  unfolding await_approver is_valid_status_transition
  held_at_routing c p = refused_routing c.row _ p (
      unroutable env.database (env.routing_comment input.sum_assured) input.sum_assured c.row
        (rw p refl) (at_step "APPROVAL_PENDING" c) refl)

  Stuck-row :
      {A : Type 0} (row : ProposalRow) (r : Issuance × Answer A)
      → Stuck (λ c. c.row ≡ row) r
      → r.0.row ≡ row
  Stuck-row row (c, Answer.result _) k = absurd k
  Stuck-row row (c, Answer.failed _) k = k

  -- The update to MEDICAL_APPROVED.
  abbrev unnamed : UpdateStatusInput
  unnamed = record {
    proposal_number = input.proposal_number;
    status = ProposalStatus.medical_approved;
    comments = "Medical examination approved";
    changed_by = pos 0;
  }

  approved_examination :
      (sig : MedicalResultSignal) (c : Issuance)
      → str_eq sig.decision "APPROVED" ≡ true
      → c.row.status ≡ ProposalStatus.pending_medical
      → IsHeldUp (examine env input sig c)
  unfolding examine change_status is_zero
  approved_examination sig c h p = rw h (
      held_at_routing _ (
        ap (λ row. row.status)
          (Stuck-row c.row (execute (update_proposal_status_activity env.database unnamed) c)
            (unnamed_update env.database unnamed c.row refl c refl))
        ∙ p))

  -- Where an examination is required, its approval is of no avail: the update to MEDICAL_APPROVED
  -- names nobody and is refused, the error is dropped, and the router refuses a proposal that is
  -- still PENDING_MEDICAL. The workflow ends with ROUTING_FAILED, unless the request for the
  -- examination has failed before.
  pub medical_approval_lost :
      is_medical_required input.age_at_entry input.sum_assured ≡ true
      → (sig : MedicalResultSignal) → env.medical ≡ Arrival.signal sig
      → str_eq sig.decision "APPROVED" ≡ true
      → (c : Issuance)
      → IsHeldUp (underwrite env input c) ⊎ IsRequestFailed (underwrite env input c)
  unfolding underwrite after_request examine IsRequestFailed
  medical_approval_lost required sig came approved c =
      go _ (medical_requested env.database input.age_at_entry input.sum_assured _ required)
    where
      go :
          (r : Issuance × Answer Bool)
          → Ok (λ c' needed. (needed ≡ true) × (c'.row.status ≡ ProposalStatus.pending_medical)) r
          → IsHeldUp (after_request env input r) ⊎ IsRequestFailed (after_request env input r)
      go (c', Answer.failed err) k = inr (refl, refl)
      go (c', Answer.result needed) (n, p) =
          inl (rw (n, came) (approved_examination sig (did IssuanceCall.signal_seen c') approved p))

  examine-NotIssued :
      (sig : MedicalResultSignal) (c : Issuance)
      → c.row.status ≡ ProposalStatus.pending_medical
      → NotIssued (examine env input sig c)
  unfolding examine
  examine-NotIssued sig c p = elim (Bool-cases (str_eq sig.decision "APPROVED")) [
    | inl h ↦ held_up-NotIssued _ (approved_examination sig c h p)
    | inr h ↦ rw h (λ e. cc)
  ]

  after_request-NotIssued :
      (r : Issuance × Answer Bool)
      → Ok (λ c' needed. (needed ≡ true) × (c'.row.status ≡ ProposalStatus.pending_medical)) r
      → NotIssued (after_request env input r)
  unfolding after_request
  after_request-NotIssued (c, Answer.failed err) k = λ e. cc
  after_request-NotIssued (c, Answer.result needed) (n, p) = grind (arith, examine-NotIssued)

  -- Where an examination is required, no policy is issued.
  pub required-NotIssued :
      is_medical_required input.age_at_entry input.sum_assured ≡ true
      → (c : Issuance) → NotIssued (underwrite env input c)
  unfolding underwrite
  required-NotIssued required c =
      after_request-NotIssued _
        (medical_requested env.database input.age_at_entry input.sum_assured _ required)
