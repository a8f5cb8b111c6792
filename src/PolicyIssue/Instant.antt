-- ===== src/PolicyIssue/Instant.antt =====
-- InstantIssuanceWorkflow of workflows/instant_issuance_workflow.go.
pub mod Refused
use revival_integration.Base.{
  Bool, none, List, [], ◌∷◌, String, ◌<>◌, ℤ, ℕ, pos, if◌then◌else◌, length,
}
use revival_integration.Revival.Case.{Answer}
use revival_integration.PolicyIssue.Proposal.{ProposalStatus}
use revival_integration.PolicyIssue.Calls.{ProposalRow, UpdateStatusInput, IssuanceCall}
use revival_integration.PolicyIssue.Activities.{
  DatabaseEnv, Issuance, Done, did, execute, update_proposal_status_activity,
}
use revival_integration.PolicyIssue.Issuance.{ResultStatus, PolicyIssuanceResult}

pub record InstantIssuanceInput : Type 0 where
  pub proposal_number : String
  pub customer_id : String
  pub product_code : String
  pub policy_type : String
  pub sum_assured : ℤ
  pub policy_term : ℤ
  pub frequency : String
  pub channel : String
  pub aadhaar_verified : Bool
  pub premium_paid : Bool
  pub payment_ref : String
  pub customer_name : String
  pub customer_dob : String
  pub gender : String
  pub address : String
  pub mobile_number : String
  pub email : String
  pub state_code : String
  pub eligible_for_instant : Bool

pub record CreatedProposal : Type 0 where
  pub proposal_id : String
  pub proposal_number : String

pub record InstantEnv : Type 0 where
  pub database : DatabaseEnv
  -- TotalPremium
  pub premium : ℕ → Answer ℤ
  pub created : ℕ → Answer CreatedProposal
  -- Eligible and Reason
  pub eligible : ℕ → Answer (Bool × String)
  pub numbered : ℕ → Answer String
  pub bond : ℕ → Answer String

-- The workflow returns no error.
abbrev pub InstantOutcome : Type 0
InstantOutcome = PolicyIssuanceResult × Issuance

-- failWorkflow.
unfoldable pub fail_workflow : PolicyIssuanceResult → String → String → PolicyIssuanceResult
fail_workflow result code message = record result {
  status = ResultStatus.failed;
  error = code <> (": " <> message);
}

module _ (env : InstantEnv) (input : InstantIssuanceInput) where
  abbrev pub pending_result : PolicyIssuanceResult
  pending_result = record {
    proposal_number = input.proposal_number;
    policy_number = "";
    status = ResultStatus.pending;
    error = "";
  }

  -- The update to ACTIVE.
  abbrev pub activation : CreatedProposal → UpdateStatusInput
  activation proposal = record {
    proposal_number = proposal.proposal_number;
    status = ProposalStatus.active;
    comments = "Instant issuance via Aadhaar flow";
    changed_by = pos 0;
  }

  unfoldable pub after_activation : CreatedProposal → Issuance × Done → InstantOutcome
  after_activation proposal (c, Answer.failed err) =
      (fail_workflow pending_result "STATUS_UPDATE_ERROR" err, c)
  after_activation proposal (c, Answer.result _) = (
    record pending_result { status = ResultStatus.active; proposal_number = proposal.proposal_id },
    c,
  )

  -- Steps 6 and 7. The error of the delivery is only logged.
  unfoldable pub deliver : CreatedProposal → String → String → Issuance → InstantOutcome
  deliver proposal number document c =
      let sent =
        did
          (IssuanceCall.send_bond (record {
            customer_id = input.customer_id;
            bond_doc_id = document;
            policy_number = number;
            customer_name = input.customer_name;
            mobile_number = input.mobile_number;
            preferred_mode = "WHATSAPP";
          }))
          c in
      after_activation proposal
        (execute (update_proposal_status_activity env.database (activation proposal)) sent)

  -- Step 5.
  unfoldable pub bond_policy : CreatedProposal → String → Issuance → InstantOutcome
  bond_policy proposal number c =
      let asked = did (IssuanceCall.generate_bond proposal.proposal_number number) c in
      elim (env.bond (length asked.calls)) [
        | Answer.failed err ↦ (fail_workflow pending_result "BOND_ERROR" err, asked)
        | Answer.result document ↦ deliver proposal number document asked
      ]

  -- Step 4.
  unfoldable pub number_policy : CreatedProposal → Issuance → InstantOutcome
  number_policy proposal c =
      let asked =
        did
          (IssuanceCall.generate_policy_number proposal.proposal_number input.policy_type
            input.state_code)
          c in
      elim (env.numbered (length asked.calls)) [
        | Answer.failed err ↦ (fail_workflow pending_result "POLICY_NUMBER_ERROR" err, asked)
        | Answer.result number ↦ bond_policy proposal number asked
      ]

  -- Step 3.
  unfoldable pub check_instant : CreatedProposal → Issuance → InstantOutcome
  check_instant proposal c =
      let asked =
        did
          (IssuanceCall.check_instant_eligibility (record {
            proposal_number = input.proposal_number;
            product_code = input.product_code;
            sum_assured = input.sum_assured;
            customer_dob = input.customer_dob;
            gender = input.gender;
          }))
          c in
      elim (env.eligible (length asked.calls)) [
        | Answer.failed err ↦ (fail_workflow pending_result "ELIGIBILITY_ERROR" err, asked)
        | Answer.result (eligible, reason) ↦
            if eligible
            then number_policy proposal asked
            else (fail_workflow pending_result "NOT_ELIGIBLE" reason, asked)
      ]

  -- Step 2.
  unfoldable pub create_proposal : ℤ → Issuance → InstantOutcome
  create_proposal premium c =
      let asked =
        did
          (IssuanceCall.create_aadhaar_proposal (record {
            proposal_number = input.proposal_number;
            customer_id = input.customer_id;
            product_code = input.product_code;
            policy_type = input.policy_type;
            sum_assured = input.sum_assured;
            policy_term = input.policy_term;
            premium_amount = premium;
            channel = input.channel;
            entry_path = "WITH_AADHAAR";
            customer_name = input.customer_name;
            customer_dob = input.customer_dob;
            gender = input.gender;
            address = input.address;
            mobile_number = input.mobile_number;
            aadhaar_verified = input.aadhaar_verified;
          }))
          c in
      elim (env.created (length asked.calls)) [
        | Answer.failed err ↦ (fail_workflow pending_result "PROPOSAL_CREATION_ERROR" err, asked)
        | Answer.result proposal ↦ check_instant proposal asked
      ]

  -- The row is the proposal's, once it is created.
  unfoldable pub instant_issuance_workflow : ProposalRow → InstantOutcome
  instant_issuance_workflow row =
      let asked : Issuance = record {
        row = row;
        query_status = "";
        calls =
            IssuanceCall.calculate_instant_premium (record {
              product_code = input.product_code;
              sum_assured = input.sum_assured;
              policy_term = input.policy_term;
              frequency = input.frequency;
              customer_dob = input.customer_dob;
              gender = input.gender;
            })
            ∷ [];
      } in
      elim (env.premium (length asked.calls)) [
        | Answer.failed err ↦ (fail_workflow pending_result "PREMIUM_ERROR" err, asked)
        | Answer.result premium ↦ create_proposal premium asked
      ]
