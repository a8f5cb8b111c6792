-- ===== src/PolicyIssue/Proposal/Machine.antt =====
-- What the table of transitions allows over several steps.
use revival_integration.Base.{
  ℕ, ◌<◌, ◌≡◌, refl, ◌⊎◌, inl, inr, Bool, true, false, ◌||◌, List, [], ◌∷◌, any, arith,
}
use revival_integration.PolicyIssue.Proposal.{
  ProposalStatus, proposal_status_eq, is_valid_status_transition,
}

-- From a status to a status, through the statuses listed, the last of them the one reached.
pub data Passed : ProposalStatus → ProposalStatus → List ProposalStatus → Type 0 where
  here : {s : ProposalStatus} → Passed s s []
  next :
      {s t u : ProposalStatus} {path : List ProposalStatus}
      → is_valid_status_transition s t ≡ true
      → Passed t u path
      → Passed s u (t ∷ path)

-- How far a proposal has come.
abbrev pub progress : ProposalStatus → ℕ
progress ProposalStatus.draft = 0
progress ProposalStatus.indexed = 1
progress ProposalStatus.data_entry = 2
progress ProposalStatus.qc_pending = 3
progress ProposalStatus.qc_returned = 4
progress ProposalStatus.qc_rejected = 4
progress ProposalStatus.qc_approved = 4
progress ProposalStatus.pending_medical = 5
progress ProposalStatus.medical_rejected = 6
progress ProposalStatus.medical_approved = 6
progress ProposalStatus.approval_pending = 7
progress ProposalStatus.rejected = 8
progress ProposalStatus.approved = 8
progress ProposalStatus.issued = 9
progress ProposalStatus.dispatched = 10
progress ProposalStatus.free_look_active = 11
progress ProposalStatus.active = 12
progress ProposalStatus.flc_cancelled = 12
progress ProposalStatus.cancelled_death = 12

-- Every transition is a step forward but the return from the quality check to the data entry.
pub transition-progress :
    (s t : ProposalStatus)
    → is_valid_status_transition s t ≡ true
    → (progress s < progress t)
      ⊎ ((s ≡ ProposalStatus.qc_returned) × (t ≡ ProposalStatus.data_entry))
unfolding is_valid_status_transition
transition-progress ProposalStatus.qc_returned ProposalStatus.data_entry h = inr (refl, refl)
transition-progress ProposalStatus.draft t h = inl (ground arith)
transition-progress s t h = inl (ground arith)

abbrev pub went_through : ProposalStatus → List ProposalStatus → Bool
went_through s = any (λ t. proposal_status_eq t s)

-- Before the quality check is passed.
abbrev unchecked : ProposalStatus → Bool
unchecked ProposalStatus.draft = true
unchecked ProposalStatus.indexed = true
unchecked ProposalStatus.data_entry = true
unchecked ProposalStatus.qc_pending = true
unchecked ProposalStatus.qc_returned = true
unchecked ProposalStatus.qc_rejected = true
unchecked ProposalStatus.cancelled_death = true
unchecked _ = false

-- Before the approval.
abbrev unapproved : ProposalStatus → Bool
unapproved ProposalStatus.qc_approved = true
unapproved ProposalStatus.pending_medical = true
unapproved ProposalStatus.medical_approved = true
unapproved ProposalStatus.medical_rejected = true
unapproved ProposalStatus.approval_pending = true
unapproved ProposalStatus.rejected = true
unapproved s = unchecked s

unchecked-next :
    (s t : ProposalStatus)
    → is_valid_status_transition s t ≡ true
    → unchecked s ≡ true
    → proposal_status_eq t ProposalStatus.qc_approved || unchecked t ≡ true
unfolding is_valid_status_transition
unchecked-next s t h u = ground arith

unapproved-next :
    (s t : ProposalStatus)
    → is_valid_status_transition s t ≡ true
    → unapproved s ≡ true
    → proposal_status_eq t ProposalStatus.approved || unapproved t ≡ true
unfolding is_valid_status_transition
unapproved-next s t h u = ground arith

Passed-qc :
    {s t : ProposalStatus} {path : List ProposalStatus}
    → Passed s t path
    → unchecked s ≡ true
    → went_through ProposalStatus.qc_approved path || unchecked t ≡ true
Passed-qc here u = ground arith
Passed-qc (next {s} {t} h rest) u =
    ground (arith, unchecked-next s t h u, λ (p : unchecked t ≡ true). Passed-qc rest p)

Passed-approval :
    {s t : ProposalStatus} {path : List ProposalStatus}
    → Passed s t path
    → unapproved s ≡ true
    → went_through ProposalStatus.approved path || unapproved t ≡ true
Passed-approval here u = ground arith
Passed-approval (next {s} {t} h rest) u =
    ground (arith, unapproved-next s t h u, λ (p : unapproved t ≡ true). Passed-approval rest p)

-- A proposal that has come from DRAFT to ISSUED by valid transitions has been QC_APPROVED and
-- APPROVED on the way.
pub issued_is_approved :
    {path : List ProposalStatus}
    → Passed ProposalStatus.draft ProposalStatus.issued path
    → (went_through ProposalStatus.qc_approved path ≡ true)
      × (went_through ProposalStatus.approved path ≡ true)
issued_is_approved p = (ground (arith, Passed-qc p refl), ground (arith, Passed-approval p refl))
