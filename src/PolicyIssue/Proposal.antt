-- ===== src/PolicyIssue/Proposal.antt =====
-- core/domain/proposal.go: the statuses of a proposal and the transitions between them.
pub mod Machine
use revival_integration.Base.{
  ℕ, Bool, true, false, Option, none, some, List, [], ◌∷◌, String, ◌==◌, any,
}

pub data ProposalStatus : Type 0 where
  draft indexed data_entry qc_pending qc_approved qc_rejected qc_returned pending_medical
        medical_approved medical_rejected approval_pending approved rejected issued dispatched
        free_look_active active flc_cancelled cancelled_death :
      ProposalStatus

-- The statuses are distinct texts: this numbers them.
abbrev pub proposal_status_code : ProposalStatus → ℕ
proposal_status_code ProposalStatus.draft = 0
proposal_status_code ProposalStatus.indexed = 1
proposal_status_code ProposalStatus.data_entry = 2
proposal_status_code ProposalStatus.qc_pending = 3
proposal_status_code ProposalStatus.qc_approved = 4
proposal_status_code ProposalStatus.qc_rejected = 5
proposal_status_code ProposalStatus.qc_returned = 6
proposal_status_code ProposalStatus.pending_medical = 7
proposal_status_code ProposalStatus.medical_approved = 8
proposal_status_code ProposalStatus.medical_rejected = 9
proposal_status_code ProposalStatus.approval_pending = 10
proposal_status_code ProposalStatus.approved = 11
proposal_status_code ProposalStatus.rejected = 12
proposal_status_code ProposalStatus.issued = 13
proposal_status_code ProposalStatus.dispatched = 14
proposal_status_code ProposalStatus.free_look_active = 15
proposal_status_code ProposalStatus.active = 16
proposal_status_code ProposalStatus.flc_cancelled = 17
proposal_status_code ProposalStatus.cancelled_death = 18

-- Go's `==` on two statuses.
abbrev pub proposal_status_eq : ProposalStatus → ProposalStatus → Bool
proposal_status_eq s t = proposal_status_code s == proposal_status_code t

abbrev pub proposal_status_text : ProposalStatus → String
proposal_status_text ProposalStatus.draft = "DRAFT"
proposal_status_text ProposalStatus.indexed = "INDEXED"
proposal_status_text ProposalStatus.data_entry = "DATA_ENTRY"
proposal_status_text ProposalStatus.qc_pending = "QC_PENDING"
proposal_status_text ProposalStatus.qc_approved = "QC_APPROVED"
proposal_status_text ProposalStatus.qc_rejected = "QC_REJECTED"
proposal_status_text ProposalStatus.qc_returned = "QC_RETURNED"
proposal_status_text ProposalStatus.pending_medical = "PENDING_MEDICAL"
proposal_status_text ProposalStatus.medical_approved = "MEDICAL_APPROVED"
proposal_status_text ProposalStatus.medical_rejected = "MEDICAL_REJECTED"
proposal_status_text ProposalStatus.approval_pending = "APPROVAL_PENDING"
proposal_status_text ProposalStatus.approved = "APPROVED"
proposal_status_text ProposalStatus.rejected = "REJECTED"
proposal_status_text ProposalStatus.issued = "ISSUED"
proposal_status_text ProposalStatus.dispatched = "DISPATCHED"
proposal_status_text ProposalStatus.free_look_active = "FREE_LOOK_ACTIVE"
proposal_status_text ProposalStatus.active = "ACTIVE"
proposal_status_text ProposalStatus.flc_cancelled = "FLC_CANCELLED"
proposal_status_text ProposalStatus.cancelled_death = "CANCELLED_DEATH"

-- `validTransitions`: `none` where the key is missing.
unfoldable pub valid_transitions : ProposalStatus → Option (List ProposalStatus)
valid_transitions ProposalStatus.draft =
    some (ProposalStatus.indexed ∷ ProposalStatus.cancelled_death ∷ [])
valid_transitions ProposalStatus.indexed = some (ProposalStatus.data_entry ∷ [])
valid_transitions ProposalStatus.data_entry = some (ProposalStatus.qc_pending ∷ [])
valid_transitions ProposalStatus.qc_pending =
    some (ProposalStatus.qc_approved ∷ ProposalStatus.qc_rejected ∷ ProposalStatus.qc_returned ∷ [])
valid_transitions ProposalStatus.qc_returned = some (ProposalStatus.data_entry ∷ [])
valid_transitions ProposalStatus.qc_approved =
    some (ProposalStatus.pending_medical ∷ ProposalStatus.approval_pending ∷ [])
valid_transitions ProposalStatus.pending_medical =
    some (ProposalStatus.medical_approved ∷ ProposalStatus.medical_rejected ∷ [])
valid_transitions ProposalStatus.medical_approved = some (ProposalStatus.approval_pending ∷ [])
valid_transitions ProposalStatus.approval_pending =
    some (ProposalStatus.approved ∷ ProposalStatus.rejected ∷ [])
valid_transitions ProposalStatus.approved = some (ProposalStatus.issued ∷ [])
valid_transitions ProposalStatus.issued = some (ProposalStatus.dispatched ∷ [])
valid_transitions ProposalStatus.dispatched = some (ProposalStatus.free_look_active ∷ [])
valid_transitions ProposalStatus.free_look_active =
    some (ProposalStatus.active ∷ ProposalStatus.flc_cancelled ∷ [])
valid_transitions _ = none

-- CanTransitionTo, and IsValidStatusTransition, which calls it.
unfoldable pub is_valid_status_transition : ProposalStatus → ProposalStatus → Bool
unfolding valid_transitions
is_valid_status_transition from to = elim (valid_transitions from) [
  | none ↦ false
  | some allowed ↦ any (λ s. proposal_status_eq s to) allowed
]
