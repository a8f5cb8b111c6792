-- ===== src/Lifecycle/State.antt =====
-- signals.go: the structs of the workflow's state. `int64` fields that are only carried are ℤ; the
-- counters `version` and `event_count` are the bit patterns of an `int64`. Amounts of money
-- (`float64` in the source, carried and compared but never added) are whole hundredths.
use revival_integration.Base.{ℕ, Bool, Option, List, String, ℤ, Dict}
use revival_integration.Domain.Status.{Status}
use revival_integration.Domain.Request.{RequestType, RequestCategory}
use revival_integration.Stdlib.Duration.{Time}

pub record EncumbranceFlags : Type 0 where
  pub has_active_loan : Bool
  pub assignment_type : String
  pub aml_hold : Bool
  pub dispute_flag : Bool

pub record FinancialLock : Type 0 where
  pub request_id : String
  pub request_type : RequestType
  pub locked_at : Time
  pub timeout_at : Time

pub record PendingRequest : Type 0 where
  pub request_id : String
  pub service_request_id : ℤ
  pub request_type : RequestType
  pub request_category : RequestCategory
  pub downstream_workflow : String
  pub routed_at : Time
  pub timeout_at : Time
  pub submitted_at : Option Time

pub record PolicyMetadata : Type 0 where
  pub customer_id : ℤ
  pub product_code : String
  pub product_type : String
  pub sum_assured : ℤ
  pub current_premium : ℤ
  pub premium_mode : String
  pub billing_method : String
  pub issue_date : Time
  pub maturity_date : Time
  pub paid_to_date : Time
  pub agent_id : Option ℤ
  pub loan_outstanding : ℤ
  pub assignment_status : String
  pub premiums_paid_months : ℤ
  pub total_premiums_months : ℤ
  pub remission_expiry_date : Option Time
  pub pay_recovery_protection_expiry : Option Time
  pub sb_installments_paid : ℤ
  pub nomination_status : String
  pub is_distance_marketing : Bool
  pub workflow_id : String

-- A nil map and an empty map read alike, and so do a nil slice and an empty one.
pub record PolicyLifecycleState : Type 0 where
  pub policy_number : String
  pub policy_id : String
  pub policy_db_id : ℤ
  pub current_status : Status
  pub previous_status : Status
  pub previous_status_before_suspension : Status
  pub encumbrances : EncumbranceFlags
  pub display_status : String
  pub version : ℕ
  pub metadata : PolicyMetadata
  pub pending_requests : List PendingRequest
  pub active_lock : Option FinancialLock
  pub processed_signal_ids : Dict Time
  pub event_count : ℕ
  pub last_can_time : Time
  pub last_transition_at : Time
  pub cached_config : Dict String
  pub flc_expiry_at : Time
