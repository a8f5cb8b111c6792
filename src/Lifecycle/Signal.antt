-- ===== src/Lifecycle/Signal.antt =====
-- signals.go: the payloads of the signals, and the channels of the workflow's selector.
use revival_integration.Base.{Option, List, String, ℤ}
use revival_integration.Domain.Status.{Status}
use revival_integration.Domain.Request.{RequestType, RequestCategory, RequestOutcome}
use revival_integration.Stdlib.Duration.{Time}
use revival_integration.Lifecycle.State.{PolicyMetadata}

-- json.RawMessage: nil, text that json.Unmarshal refuses for a map, or an object whose values are
-- carried on as they stand.
pub data RawMessage : Type 0 where
  absent : RawMessage
  malformed : String → RawMessage
  object : List (String × String) → RawMessage

pub record PolicyCreatedSignal : Type 0 where
  pub request_id : String
  pub policy_id : String
  pub policy_number : String
  pub metadata : PolicyMetadata

pub record PolicyRequestSignal : Type 0 where
  pub service_request_id : ℤ
  pub idempotency_key : String
  pub request_type : RequestType
  pub request_category : RequestCategory
  pub source_channel : String
  pub submitted_by : Option ℤ
  pub submitted_at : Option Time

pub record OperationCompletedSignal : Type 0 where
  pub request_id : String
  pub request_type : RequestType
  pub outcome : RequestOutcome
  pub state_transition : String
  pub outcome_payload : RawMessage
  pub completed_at : Time

pub record PremiumPaidSignal : Type 0 where
  pub request_id : String
  pub premium_amount : ℤ
  pub payment_date : Time
  pub new_paid_to_date : Time

pub record PaymentDishonoredSignal : Type 0 where
  pub request_id : String
  pub dishonored_date : Time
  pub reason : String

pub record AmlFlagRaisedSignal : Type 0 where
  pub request_id : String
  pub reason : String
  pub authority_ref : String

pub record AmlFlagClearedSignal : Type 0 where
  pub request_id : String
  pub cleared_by : String
  pub cleared_at : Time

pub record InvestigationStartedSignal : Type 0 where
  pub request_id : String
  pub investigator_id : String

pub record InvestigationConcludedSignal : Type 0 where
  pub request_id : String
  pub outcome : String

pub record LoanBalanceUpdatedSignal : Type 0 where
  pub request_id : String
  pub loan_outstanding : ℤ

pub record ConversionReversedSignal : Type 0 where
  pub request_id : String
  pub reason : String

pub record AdminVoidSignal : Type 0 where
  pub request_id : String
  pub reason : String
  pub authorized_by : ℤ

pub record CustomerIdMergeSignal : Type 0 where
  pub request_id : String
  pub old_customer_id : ℤ
  pub new_customer_id : ℤ

pub record VoluntaryPaidUpSignal : Type 0 where
  pub request_id : String
  pub service_request_id : ℤ
  pub paid_up_value : ℤ

pub record WithdrawalRequestSignal : Type 0 where
  pub request_id : String
  pub target_request_id : String
  pub withdrawal_reason : String

pub record DisputeSignal : Type 0 where
  pub request_id : String
  pub dispute_ref : String
  pub reason : String

pub record BatchStateSyncSignal : Type 0 where
  pub new_status : Status
  pub scan_type : String
  pub scheduled_date : Time

pub record ReopenRequestSignal : Type 0 where
  pub request_id : String
  pub reopen_reason : String
  pub authorized_by : ℤ

-- What json.Marshal is given for the audit log.
pub data Payload : Type 0 where
  request : PolicyRequestSignal → Payload
  completed : OperationCompletedSignal → Payload
  premium_paid : PremiumPaidSignal → Payload
  payment_dishonored : PaymentDishonoredSignal → Payload
  aml_flag_raised : AmlFlagRaisedSignal → Payload
  aml_flag_cleared : AmlFlagClearedSignal → Payload
  investigation_started : InvestigationStartedSignal → Payload
  investigation_concluded : InvestigationConcludedSignal → Payload
  loan_balance_updated : LoanBalanceUpdatedSignal → Payload
  conversion_reversed : ConversionReversedSignal → Payload
  admin_void : AdminVoidSignal → Payload
  customer_id_merge : CustomerIdMergeSignal → Payload
  voluntary_paid_up : VoluntaryPaidUpSignal → Payload
  withdrawal : WithdrawalRequestSignal → Payload
  dispute : DisputeSignal → Payload

-- One constructor for each channel that the selector of the main loop listens to.
pub data Signal : Type 0 where
  policy_created : PolicyCreatedSignal → Signal
  surrender_request loan_request loan_repayment revival_request : PolicyRequestSignal → Signal
  death_notification maturity_claim_request : PolicyRequestSignal → Signal
  survival_benefit_request commutation_request : PolicyRequestSignal → Signal
  conversion_request flc_request forced_surrender_trigger : PolicyRequestSignal → Signal
  nfr_request : PolicyRequestSignal → Signal
  surrender_completed forced_surrender_completed : OperationCompletedSignal → Signal
  loan_completed loan_repayment_completed : OperationCompletedSignal → Signal
  revival_completed claim_settled commutation_completed : OperationCompletedSignal → Signal
  conversion_completed flc_completed nfr_completed : OperationCompletedSignal → Signal
  operation_completed : OperationCompletedSignal → Signal
  premium_paid : PremiumPaidSignal → Signal
  payment_dishonored : PaymentDishonoredSignal → Signal
  aml_flag_raised : AmlFlagRaisedSignal → Signal
  aml_flag_cleared : AmlFlagClearedSignal → Signal
  investigation_started : InvestigationStartedSignal → Signal
  investigation_concluded : InvestigationConcludedSignal → Signal
  loan_balance_updated : LoanBalanceUpdatedSignal → Signal
  conversion_reversed : ConversionReversedSignal → Signal
  admin_void : AdminVoidSignal → Signal
  customer_id_merge : CustomerIdMergeSignal → Signal
  voluntary_paid_up_request : VoluntaryPaidUpSignal → Signal
  withdrawal_request : WithdrawalRequestSignal → Signal
  dispute_registered dispute_resolved : DisputeSignal → Signal
  batch_state_sync : BatchStateSyncSignal → Signal
