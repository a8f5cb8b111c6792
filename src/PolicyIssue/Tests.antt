-- ===== src/PolicyIssue/Tests.antt =====
-- Tests of the theorems on the policy issue service.
mod Reports
use text.Mathlib.Text.{◌==◌ as str_eq}
use revival_integration.Base.{
  Bool, true, false, ◌≡◌, refl, none, List, [], ◌∷◌, String, ℤ, pos, is_zero, if◌then◌else◌, ◌⊎◌,
}
use revival_integration.Revival.Case.{Answer}
use revival_integration.PolicyIssue.Proposal.{ProposalStatus, is_valid_status_transition}
use revival_integration.PolicyIssue.Proposal.Machine.{here, next, went_through, issued_is_approved}
use revival_integration.PolicyIssue.Calls.{ProposalRow, PremiumResult}
use revival_integration.PolicyIssue.Activities.{Fault, DatabaseEnv, Issuance}
use revival_integration.PolicyIssue.Issuance.{
  PolicyIssuanceInput, QrDecisionSignal, ApproverDecisionSignal, MedicalResultSignal, Arrival,
  IssuanceEnv,
}
use revival_integration.PolicyIssue.Workflow.{underwrite, policy_issuance_workflow}
use revival_integration.PolicyIssue.Workflow.Medical.{
  IsHeldUp, IsRequestFailed, medical_approval_lost,
}
use revival_integration.PolicyIssue.Workflow.Soundness.{
  IsIssuedSoundly, policy_issuance_workflow-IsIssuedSoundly,
}
use revival_integration.PolicyIssue.Workflow.Issued.{
  IsUndisturbed, IsGranted, IsIssued, policy_issuance_workflow-IsIssued,
}
use revival_integration.PolicyIssue.Instant.{
  InstantIssuanceInput, InstantEnv, instant_issuance_workflow,
}
use revival_integration.PolicyIssue.Instant.Refused.{
  IsRefused, issued_steps, instant_issuance_workflow-IsRefused,
}

-- Without a medical examination.
abbrev straight : List ProposalStatus
straight =
    ProposalStatus.indexed ∷ ProposalStatus.data_entry ∷ ProposalStatus.qc_pending
    ∷ ProposalStatus.qc_approved ∷ ProposalStatus.approval_pending ∷ ProposalStatus.approved
    ∷ ProposalStatus.issued ∷ []

issued_is_approved_example :
    (went_through ProposalStatus.qc_approved straight ≡ true)
    × (went_through ProposalStatus.approved straight ≡ true)
unfolding is_valid_status_transition
issued_is_approved_example =
    issued_is_approved {path = straight}
      (next refl (next refl (next refl (next refl (next refl (next refl (next refl here)))))))

abbrev premium : PremiumResult
premium = record {
  base_premium = pos 120000;
  rebate = pos 2000;
  net_premium = pos 118000;
  gst_amount = pos 21240;
  total_payable = pos 139240;
}

abbrev database : DatabaseEnv
database = record {
  found = λ _. none;
  fault = λ _. Fault.no_fault;
  routing = λ _. Answer.result (2, "DIVISION_HEAD");
}

abbrev passing_review : QrDecisionSignal
passing_review = record { decision = "APPROVED"; reviewer_id = "12"; comments = "complete" }

abbrev approval : ApproverDecisionSignal
approval = record { decision = "APPROVED"; approver_id = "31"; comments = "" }

abbrev examination : MedicalResultSignal
examination = record {
  decision = "APPROVED";
  rejection_reason = "";
  examination_date = 0;
  certificate_id = "MC-4";
}

-- The two numbers that occur.
abbrev parse : String → ℤ × Bool
parse text =
    if str_eq text "12"
    then (pos 12, false)
    else if str_eq text "31"
    then (pos 31, false)
    else (pos 0, true)

abbrev env : IssuanceEnv
env = record {
  database = database;
  parse_int = parse;
  errors_text = λ _. "";
  routing_comment = λ _ _. "routed";
  validated = λ _. Answer.result (true, []);
  eligible = λ _. Answer.result (true, "");
  premium = λ _. Answer.result premium;
  saved = λ _. none;
  numbered = λ _. Answer.result "PLI-77";
  recorded = λ _. none;
  bond = λ _. Answer.failed "no storage";
  reviews = Arrival.signal passing_review ∷ [];
  submissions = [];
  medical = Arrival.signal examination;
  approver = Arrival.signal approval;
}

abbrev input_of_age : ℤ → PolicyIssuanceInput
input_of_age age = record {
  proposal_id = pos 5;
  proposal_number = "PROP-5";
  customer_id = "C-9";
  product_code = "1001";
  policy_type = "PLI";
  sum_assured = pos 20000000;
  policy_term = pos 20;
  age_at_entry = age;
  gender = "F";
  premium_payment_frequency = "MONTHLY";
  age_proof_type = "PAN";
  insured_state = "KA";
  policy_number = "";
  proposal_date = 0;
}

abbrev row_at : ProposalStatus → ProposalRow
row_at status = record {
  status = status;
  version = 4;
  created_by = pos 8;
  sum_assured = pos 20000000;
}

calm : IsUndisturbed env "PLI-77"
calm = record {
  found = λ _. refl;
  faultless = λ _. refl;
  config = (2, "DIVISION_HEAD");
  routed = λ _. refl;
  valid = λ _. refl;
  eligible = λ _. refl;
  premium = premium;
  priced = λ _. refl;
  saved = λ _. refl;
  numbered = λ _. refl;
  recorded = λ _. refl;
}

granted : IsGranted env
unfolding is_zero
granted = record {
  review = passing_review;
  later = [];
  reviewed = refl;
  review_approved = refl;
  reviewer = pos 12;
  review_parsed = refl;
  reviewer_named = refl;
  decision = approval;
  decided = refl;
  decision_approved = refl;
  approver = pos 31;
  decision_parsed = refl;
  approver_named = refl;
}

policy_issuance_workflow-IsIssued_example :
    IsIssued "PLI-77"
      (policy_issuance_workflow env (input_of_age (pos 30)) (row_at ProposalStatus.qc_pending))
policy_issuance_workflow-IsIssued_example =
    policy_issuance_workflow-IsIssued env (input_of_age (pos 30)) "PLI-77" calm granted refl
      (row_at ProposalStatus.qc_pending) refl

policy_issuance_workflow-IsIssuedSoundly_example :
    IsIssuedSoundly env
      (input_of_age (pos 30))
      (policy_issuance_workflow env (input_of_age (pos 30)) (row_at ProposalStatus.qc_pending))
policy_issuance_workflow-IsIssuedSoundly_example =
    policy_issuance_workflow-IsIssuedSoundly env (input_of_age (pos 30))
      (row_at ProposalStatus.qc_pending)

abbrev checked : Issuance
checked = record {
  row = row_at ProposalStatus.qc_approved;
  query_status = "QC_APPROVED";
  calls = [];
}

medical_approval_lost_example :
    IsHeldUp (underwrite env (input_of_age (pos 52)) checked)
    ⊎ IsRequestFailed (underwrite env (input_of_age (pos 52)) checked)
medical_approval_lost_example =
    medical_approval_lost env (input_of_age (pos 52)) refl examination refl refl checked

abbrev instant_env : InstantEnv
instant_env = record {
  database = database;
  premium = λ _. Answer.result (pos 139240);
  created = λ _. Answer.result (record { proposal_id = "5"; proposal_number = "PROP-5" });
  eligible = λ _. Answer.result (true, "");
  numbered = λ _. Answer.result "PLI-77";
  bond = λ _. Answer.result "bond-1";
}

abbrev instant_input : InstantIssuanceInput
instant_input = record {
  proposal_number = "PROP-5";
  customer_id = "C-9";
  product_code = "1001";
  policy_type = "PLI";
  sum_assured = pos 20000000;
  policy_term = pos 20;
  frequency = "MONTHLY";
  channel = "WEB";
  aadhaar_verified = true;
  premium_paid = true;
  payment_ref = "P-1";
  customer_name = "A";
  customer_dob = "1990-01-01";
  gender = "F";
  address = "Mysuru";
  mobile_number = "9";
  email = "";
  state_code = "KA";
  eligible_for_instant = true;
}

instant_issuance_workflow-IsRefused_example :
    let out = instant_issuance_workflow instant_env instant_input (row_at ProposalStatus.draft) in
    (out.1.row ≡ row_at ProposalStatus.draft)
    × IsRefused
        (issued_steps instant_input
          (pos 139240)
          (record { proposal_id = "5"; proposal_number = "PROP-5" })
          "PLI-77"
          "bond-1")
        out
instant_issuance_workflow-IsRefused_example =
    instant_issuance_workflow-IsRefused instant_env instant_input (row_at ProposalStatus.draft)
      (λ _. refl) (λ _. refl) (λ _. refl) (λ _. refl) (λ _. refl)
