-- ===== src/PolicyIssue/Activities/Updates.antt =====
-- What an activity that changes the proposal's status leaves, over all its attempts.
use revival_integration.Base.{
  ℕ, zero, suc, ◌≡◌, refl, inl, inr, Bool, true, false, Option, none, some, String, ℤ, is_zero,
  length, arith, Bool-cases,
}
use revival_integration.Revival.Case.{Answer}
use revival_integration.PolicyIssue.Proposal.{ProposalStatus, is_valid_status_transition}
use revival_integration.PolicyIssue.Calls.{ProposalRow, UpdateStatusInput, IssuanceCall}
use revival_integration.PolicyIssue.Activities.{
  DatabaseEnv, Issuance, or_again, route_with, routing_asked, unless_error, with_answer, answering,
  did, retried, execute, update_status, with_proposal, update_proposal_status_activity,
  request_medical_review_activity, route_to_approver_activity, is_medical_required,
}

-- Where there is an answer, it and the state satisfy a postcondition.
abbrev pub Ok : {A : Type 0} → (Issuance → A → Type 0) → Issuance × Answer A → Type 0
Ok P (c, Answer.result a) = P c a
Ok P (c, Answer.failed _) = Unit

-- There is no answer, and the state still satisfies an invariant.
abbrev pub Stuck : {A : Type 0} → (Issuance → Type 0) → Issuance × Answer A → Type 0
Stuck Q (c, Answer.result _) = ⊥
Stuck Q (c, Answer.failed _) = Q c

module _ {A : Type 0} (attempt : Issuance → Issuance × Answer A) where
  or_again-Ok :
      (P : Issuance → A → Type 0) (next : Issuance → Issuance × Answer A)
      → ((c : Issuance) → Ok P (next c))
      → (r : Issuance × Answer A) → Ok P r
      → Ok P (or_again next r)
  or_again-Ok P next h (c, Answer.result a) k = k
  or_again-Ok P next h (c, Answer.failed _) k = h c

  pub retried-Ok :
      (P : Issuance → A → Type 0)
      → ((c : Issuance) → Ok P (attempt c))
      → (n : ℕ) (c : Issuance) → Ok P (retried n attempt c)
  unfolding retried
  retried-Ok P h zero c = h c
  retried-Ok P h (suc n) c = or_again-Ok P (retried n attempt) (retried-Ok P h n) (attempt c) (h c)

  or_again-Stuck :
      (Q : Issuance → Type 0) (next : Issuance → Issuance × Answer A)
      → ((c : Issuance) → Q c → Stuck Q (next c))
      → (r : Issuance × Answer A) → Stuck Q r
      → Stuck Q (or_again next r)
  or_again-Stuck Q next h (c, Answer.result a) k = absurd k
  or_again-Stuck Q next h (c, Answer.failed _) k = h c k

  pub retried-Stuck :
      (Q : Issuance → Type 0)
      → ((c : Issuance) → Q c → Stuck Q (attempt c))
      → (n : ℕ) (c : Issuance) → Q c
      → Stuck Q (retried n attempt c)
  unfolding retried
  retried-Stuck Q h zero c q = h c q
  retried-Stuck Q h (suc n) c q =
      or_again-Stuck Q (retried n attempt) (retried-Stuck Q h n) (attempt c) (h c q)

unless_error-Ok :
    {A : Type 0} (P : Issuance → A → Type 0) (go_on : Issuance → Issuance × Answer A)
    → ((c : Issuance) → Ok P (go_on c))
    → (err : Option String) (c : Issuance) → Ok P (unless_error err go_on c)
unless_error-Ok P go_on h none c = h c
unless_error-Ok P go_on h (some err) c = tt

unless_error-Stuck :
    {A : Type 0} (row : ProposalRow) (go_on : Issuance → Issuance × Answer A)
    → ((c : Issuance) → c.row ≡ row → Stuck (λ c'. c'.row ≡ row) (go_on c))
    → (c : Issuance) → c.row ≡ row
    → (err : Option String) → Stuck (λ c'. c'.row ≡ row) (unless_error err go_on c)
unless_error-Stuck row go_on h c e none = h c e
unless_error-Stuck row go_on h c e (some err) = e

with_answer-Stuck :
    {A B : Type 0} (row : ProposalRow) (go_on : B → Issuance → Issuance × Answer A)
    → ((b : B) (c : Issuance) → c.row ≡ row → Stuck (λ c'. c'.row ≡ row) (go_on b c))
    → (c : Issuance) → c.row ≡ row
    → (answer : Answer B) → Stuck (λ c'. c'.row ≡ row) (with_answer answer go_on c)
with_answer-Stuck row go_on h c e (Answer.result b) = h b c e
with_answer-Stuck row go_on h c e (Answer.failed err) = e

answering-Ok :
    {A : Type 0} {Q : Issuance → Type 0} (P : Issuance → Bool → Type 0) (r : Issuance × Answer A)
    → Ok (λ c _. Q c) r
    → ((c : Issuance) → Q c → P c true)
    → Ok P (answering true r)
answering-Ok P (c, Answer.result a) q h = h c q
answering-Ok P (c, Answer.failed err) q h = tt

answering-Stuck :
    {A B : Type 0} (row : ProposalRow) (b : B) (r : Issuance × Answer A)
    → Stuck (λ c. c.row ≡ row) r
    → Stuck (λ c. c.row ≡ row) (answering b r)
answering-Stuck row b (c, Answer.result a) k = absurd k
answering-Stuck row b (c, Answer.failed err) k = k

module _ (env : DatabaseEnv) where
  -- The answer of an update means that the row has the new status.
  update_status-Ok :
      (to : ProposalStatus) (comments : String) (by : ℤ) (c : Issuance)
      → Ok (λ c' _. c'.row.status ≡ to) (update_status env to comments by c)
  unfolding update_status
  update_status-Ok to comments by c = ground arith

  -- An invalid transition is refused, and the row stays.
  update_status-Stuck :
      (to : ProposalStatus) (comments : String) (by : ℤ) (row : ProposalRow)
      → is_valid_status_transition row.status to ≡ false
      → (c : Issuance) → c.row ≡ row
      → Stuck (λ c'. c'.row ≡ row) (update_status env to comments by c)
  unfolding update_status
  update_status-Stuck to comments by row invalid c e = ground arith

  with_proposal-Ok :
      {A : Type 0} (P : Issuance → A → Type 0) (go_on : Issuance → Issuance × Answer A)
      → ((c : Issuance) → Ok P (go_on c))
      → (c : Issuance) → Ok P (with_proposal env go_on c)
  unfolding with_proposal
  with_proposal-Ok P go_on h c = unless_error-Ok P go_on h _ _

  with_proposal-Stuck :
      {A : Type 0} (row : ProposalRow) (go_on : Issuance → Issuance × Answer A)
      → ((c : Issuance) → c.row ≡ row → Stuck (λ c'. c'.row ≡ row) (go_on c))
      → (c : Issuance) → c.row ≡ row
      → Stuck (λ c'. c'.row ≡ row) (with_proposal env go_on c)
  unfolding with_proposal
  with_proposal-Stuck row go_on h c e =
      unless_error-Stuck row go_on h (did IssuanceCall.get_proposal c) e _

  -- UpdateProposalStatusActivity, with its attempts.
  pub updated :
      (input : UpdateStatusInput) (c : Issuance)
      → Ok
          (λ c' _. c'.row.status ≡ input.status)
          (execute (update_proposal_status_activity env input) c)
  unfolding update_proposal_status_activity
  updated input =
      retried-Ok _ (λ c' _. c'.row.status ≡ input.status)
        (with_proposal-Ok (λ c' _. c'.row.status ≡ input.status) _
          λ c. elim (Bool-cases (is_zero input.changed_by)) [
            | inl z ↦ rw z tt
            | inr z ↦ rw z (update_status-Ok input.status input.comments input.changed_by c)
          ])
        2

  -- An update that names nobody is refused.
  pub unnamed_update :
      (input : UpdateStatusInput) (row : ProposalRow)
      → is_zero input.changed_by ≡ true
      → (c : Issuance) → c.row ≡ row
      → Stuck (λ c'. c'.row ≡ row) (execute (update_proposal_status_activity env input) c)
  unfolding update_proposal_status_activity
  unnamed_update input row z =
      retried-Stuck _ (λ c. c.row ≡ row) (with_proposal-Stuck row _ λ c e. rw z e) 2

  -- RequestMedicalReviewActivity: the proposal is PENDING_MEDICAL where an examination is required,
  -- and as it was where none is.
  pub medical_requested :
      (age sum_assured : ℤ) (c : Issuance)
      → is_medical_required age sum_assured ≡ true
      → Ok
          (λ c' required. (required ≡ true) × (c'.row.status ≡ ProposalStatus.pending_medical))
          (execute (request_medical_review_activity env age sum_assured) c)
  unfolding request_medical_review_activity
  medical_requested age sum_assured c h =
      let P : Issuance → Bool → Type 0 =
        λ c' required. (required ≡ true) × (c'.row.status ≡ ProposalStatus.pending_medical) in
      retried-Ok _ P
        (λ c'. rw h (
          with_proposal-Ok P _
            (λ found.
              answering-Ok {Q = λ k. k.row.status ≡ ProposalStatus.pending_medical} P _
                (update_status-Ok ProposalStatus.pending_medical _ _ found) (λ k q. (refl, q)))
            c'))
        2 c

  pub medical_not_requested :
      (age sum_assured : ℤ) (c : Issuance)
      → is_medical_required age sum_assured ≡ false
      → execute (request_medical_review_activity env age sum_assured) c ≡ (c, Answer.result false)
  unfolding request_medical_review_activity retried
  medical_not_requested age sum_assured c h = rw h refl

  -- RouteToApproverActivity refuses a proposal from which APPROVAL_PENDING is no step.
  pub unroutable :
      (comment : ℕ × String → String) (sum_assured : ℤ) (row : ProposalRow)
      → is_valid_status_transition row.status ProposalStatus.approval_pending ≡ false
      → (c : Issuance) → c.row ≡ row
      → Stuck (λ c'. c'.row ≡ row) (execute (route_to_approver_activity env comment sum_assured) c)
  unfolding route_to_approver_activity
  unroutable comment sum_assured row invalid =
      retried-Stuck _ (λ c. c.row ≡ row)
        (with_proposal-Stuck row _ λ found e.
          with_answer-Stuck row (route_with env comment)
            (λ config known k.
              answering-Stuck row config
                (update_status env ProposalStatus.approval_pending (comment config)
                  known.row.created_by known)
                (update_status-Stuck ProposalStatus.approval_pending (comment config)
                  known.row.created_by row invalid known k))
            (routing_asked env sum_assured found) e
            (env.routing (length (routing_asked env sum_assured found).calls)))
        2
