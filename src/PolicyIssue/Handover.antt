-- ===== src/PolicyIssue/Handover.antt =====
-- What policy management makes of the message of StartPMLifecycleActivity,
-- workflows/activities/pm_lifecycle_activities.go: PMCreatedSignal is sent as the input of
-- PolicyLifecycleWorkflow and as its policy-created signal, and decoded there from its JSON.
pub mod Unactivated
pub mod Repeated
use revival_integration.Base.{false, none, [], String, pos}
use revival_integration.Stdlib.Duration.{Time}
use revival_integration.Domain.Status.{Status}
use revival_integration.Lifecycle.State.{PolicyMetadata, PolicyLifecycleState}
use revival_integration.Lifecycle.Signal.{PolicyCreatedSignal}

pub record PmCreatedSignal : Type 0 where
  pub policy_number : String
  pub policy_type : String
  pub issued_at : Time

-- Go's zero value.
abbrev pub no_metadata : PolicyMetadata
no_metadata = record {
  customer_id = pos 0;
  product_code = "";
  product_type = "";
  sum_assured = pos 0;
  current_premium = pos 0;
  premium_mode = "";
  billing_method = "";
  issue_date = 0;
  maturity_date = 0;
  paid_to_date = 0;
  agent_id = none;
  loan_outstanding = pos 0;
  assignment_status = "";
  premiums_paid_months = pos 0;
  total_premiums_months = pos 0;
  remission_expiry_date = none;
  pay_recovery_protection_expiry = none;
  sb_installments_paid = pos 0;
  nomination_status = "";
  is_distance_marketing = false;
  workflow_id = "";
}

-- Of the keys of PolicyCreatedSignal, the JSON has `policy_number` alone.
unfoldable pub created_signal : PmCreatedSignal → PolicyCreatedSignal
created_signal m = record {
  request_id = "";
  policy_id = "";
  policy_number = m.policy_number;
  metadata = no_metadata;
}

-- And so of the keys of PolicyLifecycleState.
unfoldable pub initial_state : PmCreatedSignal → PolicyLifecycleState
initial_state m = record {
  policy_number = m.policy_number;
  policy_id = "";
  policy_db_id = pos 0;
  current_status = Status.unset;
  previous_status = Status.unset;
  previous_status_before_suspension = Status.unset;
  encumbrances = record {
    has_active_loan = false;
    assignment_type = "";
    aml_hold = false;
    dispute_flag = false;
  };
  display_status = "";
  version = 0;
  metadata = no_metadata;
  pending_requests = [];
  active_lock = none;
  processed_signal_ids = [];
  event_count = 0;
  last_can_time = 0;
  last_transition_at = 0;
  cached_config = [];
  flc_expiry_at = 0;
}
