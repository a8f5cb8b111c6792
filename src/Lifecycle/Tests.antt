-- ===== src/Lifecycle/Tests.antt =====
-- A policy, its environment and its signals, for the tests of the lifecycle workflow.
mod Signals
mod Handlers
mod Runs
mod Withdrawals
use revival_integration.Base.{
  ℕ, ◌+◌, ◌*◌, Bool, true, false, none, some, [], ◌∷◌, String, ℤ, pos, List,
}
use revival_integration.Domain.Status.{Status}
use revival_integration.Domain.Request.{RequestType, RequestCategory, RequestOutcome}
use revival_integration.Stdlib.Duration.{day}
use revival_integration.Lifecycle.State.{
  PolicyLifecycleState, PolicyMetadata, PendingRequest, FinancialLock, EncumbranceFlags,
}
use revival_integration.Lifecycle.Signal.{PolicyRequestSignal, OperationCompletedSignal, RawMessage}
use revival_integration.Lifecycle.World.{Env, World}

-- Day 737000 of the calendar, a nanosecond for each command; no database behind the refresh.
abbrev pub env : Env
env = record {
  clock = λ n. 737000 * day + n;
  workflow_id = "plw-PLI-1";
  history_length = λ n. n;
  history_size = λ n. 100 * n;
  initialized = λ n. some (pos 77);
  refreshed = λ n. none;
  all_configs = λ n. [];
  config = λ n. "15";
  upsert_fails = λ n. false;
}

abbrev pub metadata : PolicyMetadata
metadata = record {
  customer_id = pos 5;
  product_code = "PLI-SANTOSH";
  product_type = "ENDOWMENT";
  sum_assured = pos 50000000;
  current_premium = pos 150000;
  premium_mode = "MONTHLY";
  billing_method = "CASH";
  issue_date = 735000 * day;
  maturity_date = 742000 * day;
  paid_to_date = 737000 * day;
  agent_id = none;
  loan_outstanding = pos 0;
  assignment_status = "";
  premiums_paid_months = pos 60;
  total_premiums_months = pos 240;
  remission_expiry_date = none;
  pay_recovery_protection_expiry = none;
  sb_installments_paid = pos 0;
  nomination_status = "REGISTERED";
  is_distance_marketing = false;
  workflow_id = "plw-PLI-1";
}

abbrev pub in_force : PolicyLifecycleState
in_force = record {
  policy_number = "PLI-1";
  policy_id = "issue-1";
  policy_db_id = pos 77;
  current_status = Status.active;
  previous_status = Status.free_look_active;
  previous_status_before_suspension = Status.unset;
  encumbrances = record {
    has_active_loan = false;
    assignment_type = "NONE";
    aml_hold = false;
    dispute_flag = false;
  };
  display_status = "ACTIVE";
  version = 3;
  metadata = metadata;
  pending_requests = [];
  active_lock = none;
  processed_signal_ids = ("old", 736990 * day) ∷ [];
  event_count = 7;
  last_can_time = 736990 * day;
  last_transition_at = 736000 * day;
  cached_config = ("routing_timeout_loan", "3d") ∷ [];
  flc_expiry_at = 0;
}

abbrev pub world_of : PolicyLifecycleState → World
world_of st = record { state = st; trace = []; timers = [] }

abbrev pub request : String → RequestType → PolicyRequestSignal
request key t = record {
  service_request_id = pos 900;
  idempotency_key = key;
  request_type = t;
  request_category = RequestCategory.financial;
  source_channel = "COUNTER";
  submitted_by = none;
  submitted_at = none;
}

abbrev pub completion : String → RequestType → OperationCompletedSignal
completion key t = record {
  request_id = key;
  request_type = t;
  outcome = RequestOutcome.approved;
  state_transition = "";
  outcome_payload = RawMessage.absent;
  completed_at = 737000 * day;
}

abbrev pub pending : String → ℤ → RequestType → PendingRequest
pending key id t = record {
  request_id = key;
  service_request_id = id;
  request_type = t;
  request_category = RequestCategory.financial;
  downstream_workflow = "child";
  routed_at = 736995 * day;
  timeout_at = 737010 * day;
  submitted_at = none;
}

-- A loan request waits with the lock, and a change of address behind it.
abbrev pub queue : List PendingRequest
queue =
    pending "loan-1" (pos 41) RequestType.loan
    ∷ pending "address-1" (pos 42) RequestType.address_change
    ∷ []

abbrev pub loan_waits : PolicyLifecycleState
loan_waits = record in_force {
  pending_requests = queue;
  active_lock = some (record {
    request_id = "loan-1";
    request_type = RequestType.loan;
    locked_at = 736995 * day;
    timeout_at = 736998 * day;
  });
}
