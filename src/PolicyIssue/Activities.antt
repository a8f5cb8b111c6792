-- ===== src/PolicyIssue/Activities.antt =====
-- The proposal in the database under the activities that the issuance workflows call:
-- UpdateProposalStatus of repo/postgres/proposal_repository.go, and UpdateProposalStatusActivity,
-- RequestMedicalReviewActivity and RouteToApproverActivity of
-- workflows/activities/proposal_activities.go. The other activities answer through the environment.
pub mod Updates
use revival_integration.Base.{
  ℕ, zero, suc, Bool, true, false, not, Option, none, some, List, ◌∷◌, String, ◌<>◌, ℤ, pos,
  at_most_int, is_zero, if◌then◌else◌, length,
}
use revival_integration.Lifecycle.Transition.{next_int64}
use revival_integration.Revival.Case.{Answer}
use revival_integration.PolicyIssue.Proposal.{
  ProposalStatus, proposal_status_text, is_valid_status_transition,
}
use revival_integration.PolicyIssue.Calls.{ProposalRow, UpdateStatusInput, IssuanceCall}

-- An attempt at a change of the status: undisturbed; failed before the row is written, or after it,
-- at the status history or on the way back.
pub data Fault : Type 0 where
  no_fault : Fault
  before_write : String → Fault
  after_write : String → Fault

pub record DatabaseEnv : Type 0 where
  -- GetProposalByNumber's error
  pub found : ℕ → Option String
  pub fault : ℕ → Fault
  -- GetApprovalRoutingConfig: level and role
  pub routing : ℕ → Answer (ℕ × String)

-- The row, the answer of the query QueryProposalStatus, and what was done.
pub record Issuance : Type 0 where
  pub row : ProposalRow
  pub query_status : String
  pub calls : List IssuanceCall

abbrev pub did : IssuanceCall → Issuance → Issuance
did call c = record c { calls = call ∷ c.calls }

abbrev pub write_status : ProposalStatus → Issuance → Issuance
write_status to c = record c {
  row = record c.row { status = to; version = next_int64 c.row.version };
}

-- The next attempt is made only after a failure.
abbrev pub or_again :
    {A : Type 0} → (Issuance → Issuance × Answer A) → Issuance × Answer A → Issuance × Answer A
or_again next (c, Answer.result a) = (c, Answer.result a)
or_again next (c, Answer.failed _) = next c

-- An activity with the attempts that its retry policy leaves after the first.
unfoldable pub retried :
    {A : Type 0} → ℕ → (Issuance → Issuance × Answer A) → Issuance → Issuance × Answer A
retried zero attempt c = attempt c
retried (suc n) attempt c = or_again (retried n attempt) (attempt c)

-- MaximumAttempts is 3.
abbrev pub execute :
    {A : Type 0} → (Issuance → Issuance × Answer A) → Issuance → Issuance × Answer A
execute = retried 2

abbrev pub Done : Type 0
Done = Answer (Unit {0})

abbrev pub done : Done
done = Answer.result tt

-- `if err != nil { return …, err }` after a read.
abbrev pub unless_error :
    {A : Type 0} → Option String → (Issuance → Issuance × Answer A) → Issuance → Issuance × Answer A
unless_error none go_on c = go_on c
unless_error (some err) go_on c = (c, Answer.failed err)

abbrev pub with_answer :
    {A B : Type 0}
    → Answer B
    → (B → Issuance → Issuance × Answer A)
    → Issuance
    → Issuance × Answer A
with_answer (Answer.result b) go_on c = go_on b c
with_answer (Answer.failed err) go_on c = (c, Answer.failed err)

-- Another answer in place of the one that was given.
abbrev pub answering : {A B : Type 0} → B → Issuance × Answer A → Issuance × Answer B
answering b (c, Answer.result _) = (c, Answer.result b)
answering b (c, Answer.failed err) = (c, Answer.failed err)

abbrev pub is_medical_required : ℤ → ℤ → Bool
is_medical_required age sum_assured =
    if at_most_int (pos 50) age then true else not (at_most_int sum_assured (pos 50000000))

module _ (env : DatabaseEnv) where
  -- ProposalRepository.UpdateProposalStatus.
  unfoldable pub update_status : ProposalStatus → String → ℤ → Issuance → Issuance × Done
  update_status to comments changed_by c =
      let asked = did (IssuanceCall.update_proposal_status to comments changed_by) c in
      let refused = Answer.failed (
        "invalid status transition from "
        <> (proposal_status_text c.row.status <> (" to " <> proposal_status_text to))) in
      let valid = is_valid_status_transition c.row.status to in
      elim (env.fault (length asked.calls)) [
        | Fault.before_write err ↦ (asked, Answer.failed err)
        | Fault.no_fault ↦ if valid then (write_status to asked, done) else (asked, refused)
        | Fault.after_write err ↦
            if valid then (write_status to asked, Answer.failed err) else (asked, refused)
      ]

  -- GetProposalByNumber.
  unfoldable pub with_proposal :
      {A : Type 0} → (Issuance → Issuance × Answer A) → Issuance → Issuance × Answer A
  with_proposal go_on c =
      let asked = did IssuanceCall.get_proposal c in
      unless_error (env.found (length asked.calls)) go_on asked

  -- One attempt at UpdateProposalStatusActivity.
  unfoldable pub update_proposal_status_activity : UpdateStatusInput → Issuance → Issuance × Done
  update_proposal_status_activity input = with_proposal λ c.
      if is_zero input.changed_by
      then (c, Answer.failed "changed_by is mandatory")
      else update_status input.status input.comments input.changed_by c

  -- One attempt at RequestMedicalReviewActivity: MedicalRequired.
  unfoldable pub request_medical_review_activity : ℤ → ℤ → Issuance → Issuance × Answer Bool
  request_medical_review_activity age sum_assured c =
      if is_medical_required age sum_assured
      then with_proposal
          (λ found. answering true (
            update_status ProposalStatus.pending_medical "Medical examination required"
              found.row.created_by found))
          c
      else (c, Answer.result false)

  abbrev pub route_with :
      (ℕ × String → String) → ℕ × String → Issuance → Issuance × Answer (ℕ × String)
  route_with comment config c =
      answering config
        (update_status ProposalStatus.approval_pending (comment config) c.row.created_by c)

  abbrev pub routing_asked : ℤ → Issuance → Issuance
  routing_asked sum_assured found =
      did
        (IssuanceCall.get_approval_routing
          (if at_most_int sum_assured (pos 0) then found.row.sum_assured else sum_assured))
        found

  -- One attempt at RouteToApproverActivity: ApproverLevel and ApproverRole. The comment is given as
  -- a function of the configuration.
  unfoldable pub route_to_approver_activity :
      (ℕ × String → String) → ℤ → Issuance → Issuance × Answer (ℕ × String)
  route_to_approver_activity comment sum_assured = with_proposal λ found.
      let asked = routing_asked sum_assured found in
      with_answer (env.routing (length asked.calls)) (route_with comment) asked
