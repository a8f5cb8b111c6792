-- ===== src/PolicyIssue/Instant/Refused.antt =====
-- InstantIssuanceWorkflow never succeeds.
use mathlib.Core.Path.{subst}
use revival_integration.Base.{
  ◌≡◌, refl, sym, ℕ, ℤ, suc, true, List, [], ◌∷◌, String, ◌<>◌, is_zero, length, Option-cases, inl,
  inr, arith,
}
use revival_integration.Revival.Case.{Answer}
use revival_integration.PolicyIssue.Calls.{ProposalRow, UpdateStatusInput, IssuanceCall}
use revival_integration.PolicyIssue.Activities.{
  Issuance, Done, with_proposal, update_proposal_status_activity,
}
use revival_integration.PolicyIssue.Activities.Updates.{Stuck, unnamed_update, retried-Stuck}
use revival_integration.PolicyIssue.Issuance.{ResultStatus}
use revival_integration.PolicyIssue.Instant.{
  InstantIssuanceInput, CreatedProposal, InstantEnv, InstantOutcome, fail_workflow, activation,
  after_activation, deliver, bond_policy, number_policy, check_instant, create_proposal,
  instant_issuance_workflow,
}

-- The result says FAILED, and the row is as it was.
unfoldable pub HasFailed : ProposalRow → InstantOutcome → Type 0
HasFailed row (r, c) = (r.status ≡ ResultStatus.failed) × (c.row ≡ row)

module _ (env : InstantEnv) (input : InstantIssuanceInput) where
  after_activation-HasFailed :
      (row : ProposalRow) (proposal : CreatedProposal) (r : Issuance × Done)
      → Stuck (λ c. c.row ≡ row) r
      → HasFailed row (after_activation env input proposal r)
  unfolding after_activation fail_workflow HasFailed
  after_activation-HasFailed row proposal (c, Answer.result _) k = absurd k
  after_activation-HasFailed row proposal (c, Answer.failed err) k = (refl, k)

  deliver-HasFailed :
      (proposal : CreatedProposal) (number document : String) (c : Issuance)
      → HasFailed c.row (deliver env input proposal number document c)
  unfolding deliver is_zero
  deliver-HasFailed proposal number document c =
      after_activation-HasFailed c.row proposal _
        (unnamed_update env.database (activation env input proposal) c.row refl _ refl)

  -- Whatever the activities answer, the workflow ends with FAILED and the proposal's status as it
  -- was.
  instant_issuance_workflow-HasFailed :
      (row : ProposalRow) → HasFailed row (instant_issuance_workflow env input row)
  unfolding instant_issuance_workflow create_proposal check_instant number_policy bond_policy
      fail_workflow HasFailed
  instant_issuance_workflow-HasFailed row = grind (arith, deliver-HasFailed)

-- What was asked for, but for reads of the proposal.
abbrev pub steps : List IssuanceCall → List IssuanceCall
steps [] = []
steps (IssuanceCall.get_proposal ∷ calls) = steps calls
steps (call ∷ calls) = call ∷ steps calls

-- What InstantIssuanceWorkflow asks for after the answers to its activities, the newest first.
abbrev pub issued_steps :
    InstantIssuanceInput → ℤ → CreatedProposal → String → String → List IssuanceCall
issued_steps input premium proposal number document =
    IssuanceCall.send_bond (record {
      customer_id = input.customer_id;
      bond_doc_id = document;
      policy_number = number;
      customer_name = input.customer_name;
      mobile_number = input.mobile_number;
      preferred_mode = "WHATSAPP";
    })
    ∷ IssuanceCall.generate_bond proposal.proposal_number number
    ∷ IssuanceCall.generate_policy_number proposal.proposal_number input.policy_type
        input.state_code
    ∷ IssuanceCall.check_instant_eligibility (record {
      proposal_number = input.proposal_number;
      product_code = input.product_code;
      sum_assured = input.sum_assured;
      customer_dob = input.customer_dob;
      gender = input.gender;
    })
    ∷ IssuanceCall.create_aadhaar_proposal (record {
      proposal_number = input.proposal_number;
      customer_id = input.customer_id;
      product_code = input.product_code;
      policy_type = input.policy_type;
      sum_assured = input.sum_assured;
      policy_term = input.policy_term;
      premium_amount = premium;
      channel = input.channel;
      entry_path = "WITH_AADHAAR";
      customer_name = input.customer_name;
      customer_dob = input.customer_dob;
      gender = input.gender;
      address = input.address;
      mobile_number = input.mobile_number;
      aadhaar_verified = input.aadhaar_verified;
    })
    ∷ IssuanceCall.calculate_instant_premium (record {
      product_code = input.product_code;
      sum_assured = input.sum_assured;
      policy_term = input.policy_term;
      frequency = input.frequency;
      customer_dob = input.customer_dob;
      gender = input.gender;
    })
    ∷ []

-- The end of the workflow where all but the last step was done.
unfoldable pub IsRefused : List IssuanceCall → InstantOutcome → Type 0
IsRefused done (r, c) =
    (r.status ≡ ResultStatus.failed)
    × ((err : String) × (r.error ≡ "STATUS_UPDATE_ERROR" <> (": " <> err)))
    × (steps c.calls ≡ done)

abbrev tail : List IssuanceCall → List IssuanceCall
tail [] = []
tail (_ ∷ calls) = calls

module _ (env : InstantEnv) (input : InstantIssuanceInput) where
  refused_attempt :
      (done : List IssuanceCall) (update : UpdateStatusInput)
      → is_zero update.changed_by ≡ true
      → (c : Issuance) → steps c.calls ≡ done
      → Stuck (λ c'. steps c'.calls ≡ done) (update_proposal_status_activity env.database update c)
  unfolding update_proposal_status_activity with_proposal
  refused_attempt done update z c e =
      elim (Option-cases (env.database.found (suc (length c.calls)))) [
        | inl none_read ↦ rw (none_read, z) e
        | inr (err, read) ↦ rw (read) e
      ]

  after_activation-IsRefused :
      (done : List IssuanceCall) (proposal : CreatedProposal) (r : Issuance × Done)
      → Stuck (λ c. steps c.calls ≡ done) r
      → IsRefused done (after_activation env input proposal r)
  unfolding after_activation fail_workflow IsRefused
  after_activation-IsRefused done proposal (c, Answer.result _) k = absurd k
  after_activation-IsRefused done proposal (c, Answer.failed err) k = (refl, (err, refl), k)

  deliver-IsRefused :
      (premium : ℤ) (proposal : CreatedProposal) (number document : String) (c : Issuance)
      → steps c.calls ≡ tail (issued_steps input premium proposal number document)
      → IsRefused
          (issued_steps input premium proposal number document)
          (deliver env input proposal number document c)
  unfolding deliver is_zero
  deliver-IsRefused premium proposal number document c e =
      let done = issued_steps input premium proposal number document in
      after_activation-IsRefused done proposal _ (
        retried-Stuck _ (λ c'. steps c'.calls ≡ done)
          (λ c'. refused_attempt done (activation env input proposal) refl c') 2 _ (cc))

  reached :
      (row : ProposalRow) {premium : ℤ} {proposal : CreatedProposal}
      {reason number document : String}
      → ((n : ℕ) → env.premium n ≡ Answer.result premium)
      → ((n : ℕ) → env.created n ≡ Answer.result proposal)
      → ((n : ℕ) → env.eligible n ≡ Answer.result (true, reason))
      → ((n : ℕ) → env.numbered n ≡ Answer.result number)
      → ((n : ℕ) → env.bond n ≡ Answer.result document)
      → instant_issuance_workflow env input row
        ≡ deliver env input proposal number document (record {
          row = row;
          query_status = "";
          calls = tail (issued_steps input premium proposal number document);
        })
  unfolding instant_issuance_workflow create_proposal check_instant number_policy bond_policy
  reached row priced created eligible numbered bond =
      rw
        (
          instant_issuance_workflow,
          priced 1,
          create_proposal,
          created 2,
          check_instant,
          eligible 3,
          number_policy,
          numbered 4,
          bond_policy,
          bond 5,
        )
        refl

  -- Where every activity before the last update answers well, and the applicant is eligible, a
  -- policy number was generated, the bond was generated and its delivery asked for, and no update of
  -- the proposal's status reaches the repository: the update to ACTIVE names nobody. The result is
  -- FAILED with STATUS_UPDATE_ERROR, and the proposal's row is as it was.
  pub instant_issuance_workflow-IsRefused :
      (row : ProposalRow) {premium : ℤ} {proposal : CreatedProposal}
      {reason number document : String}
      → ((n : ℕ) → env.premium n ≡ Answer.result premium)
      → ((n : ℕ) → env.created n ≡ Answer.result proposal)
      → ((n : ℕ) → env.eligible n ≡ Answer.result (true, reason))
      → ((n : ℕ) → env.numbered n ≡ Answer.result number)
      → ((n : ℕ) → env.bond n ≡ Answer.result document)
      → (let out = instant_issuance_workflow env input row in
          (out.1.row ≡ row) × IsRefused (issued_steps input premium proposal number document) out)
  unfolding HasFailed
  instant_issuance_workflow-IsRefused row {premium} {proposal} {reason} {number} {document} priced
        created eligible numbered bond =
      let unchanged : (instant_issuance_workflow env input row).1.row ≡ row =
        (instant_issuance_workflow-HasFailed env input row).1 in
      (
        unchanged,
        subst (IsRefused (issued_steps input premium proposal number document))
            (sym (reached row priced created eligible numbered bond))
            (deliver-IsRefused premium proposal number document _ refl),
      )
