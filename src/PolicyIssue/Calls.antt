-- ===== src/PolicyIssue/Calls.antt =====
-- The row of a proposal, the inputs of the activities of workflows/activities/proposal_activities.go
-- and aadhaar_activities.go, and the calls that the issuance workflows make.
use revival_integration.Base.{ℕ, Bool, String, ℤ}
use revival_integration.Stdlib.Duration.{Time}
use revival_integration.PolicyIssue.Proposal.{ProposalStatus}

-- The columns of the proposal that the workflows read or write. Amounts are whole hundredths.
pub record ProposalRow : Type 0 where
  pub status : ProposalStatus
  pub version : ℕ
  pub created_by : ℤ
  pub sum_assured : ℤ

pub record UpdateStatusInput : Type 0 where
  pub proposal_number : String
  pub status : ProposalStatus
  pub comments : String
  pub changed_by : ℤ

pub record PremiumResult : Type 0 where
  pub base_premium : ℤ
  pub rebate : ℤ
  pub net_premium : ℤ
  pub gst_amount : ℤ
  pub total_payable : ℤ

-- The inputs of the activities of workflows/activities/aadhaar_activities.go, with the fields that
-- are set.
pub record PremiumCalculationInput : Type 0 where
  pub product_code : String
  pub sum_assured : ℤ
  pub policy_term : ℤ
  pub frequency : String
  pub customer_dob : String
  pub gender : String

pub record CreateAadhaarProposalInput : Type 0 where
  pub proposal_number : String
  pub customer_id : String
  pub product_code : String
  pub policy_type : String
  pub sum_assured : ℤ
  pub policy_term : ℤ
  pub premium_amount : ℤ
  pub channel : String
  pub entry_path : String
  pub customer_name : String
  pub customer_dob : String
  pub gender : String
  pub address : String
  pub mobile_number : String
  pub aadhaar_verified : Bool

pub record AadhaarEligibilityInput : Type 0 where
  pub proposal_number : String
  pub product_code : String
  pub sum_assured : ℤ
  pub customer_dob : String
  pub gender : String

pub record SendPolicyBondElectronicInput : Type 0 where
  pub customer_id : String
  pub bond_doc_id : String
  pub policy_number : String
  pub customer_name : String
  pub mobile_number : String
  pub preferred_mode : String

-- What moves the clock on: the activities, each attempt at a change of the status, and what is
-- waited for. The newest stands first.
pub data IssuanceCall : Type 0 where
  validate_proposal : String → IssuanceCall
  check_eligibility : String → ℤ → IssuanceCall
  calculate_premium : String → ℤ → String → ℤ → ℤ → String → IssuanceCall
  save_premium : String → PremiumResult → IssuanceCall
  get_proposal : IssuanceCall
  update_proposal_status : ProposalStatus → String → ℤ → IssuanceCall
  get_approval_routing : ℤ → IssuanceCall
  signal_seen : IssuanceCall
  timer_fired : IssuanceCall
  generate_policy_number : String → String → String → IssuanceCall
  create_policy_issuance : ℤ → String → Time → ℤ → IssuanceCall
  generate_bond : String → String → IssuanceCall
  update_bond_details : ℤ → String → ℤ → IssuanceCall
  send_notification : String → String → IssuanceCall
  start_pm_lifecycle : String → String → IssuanceCall
  calculate_instant_premium : PremiumCalculationInput → IssuanceCall
  create_aadhaar_proposal : CreateAadhaarProposalInput → IssuanceCall
  check_instant_eligibility : AadhaarEligibilityInput → IssuanceCall
  send_bond : SendPolicyBondElectronicInput → IssuanceCall
