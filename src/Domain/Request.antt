-- ===== src/Domain/Request.antt =====
-- policy-management-development/policy-management-development/policy-code/core/domain/
-- service_request.go: request types, categories, statuses, outcomes and task queues.
use revival_integration.Base.{Bool, true, false, Option, none, some, String}

-- `unlisted` is any text that is none of the constants: a signal carries the type as plain text.
pub data RequestType : Type 0 where
  surrender loan loan_repayment revival death_claim maturity_claim survival_benefit commutation
        conversion flc paid_up nomination_change billing_method_change assignment address_change
        premium_refund duplicate_bond forced_surrender admin_void reopen :
      RequestType
  unlisted : String → RequestType

unfoldable pub request_type_text : RequestType → String
request_type_text RequestType.surrender = "SURRENDER"
request_type_text RequestType.loan = "LOAN"
request_type_text RequestType.loan_repayment = "LOAN_REPAYMENT"
request_type_text RequestType.revival = "REVIVAL"
request_type_text RequestType.death_claim = "DEATH_CLAIM"
request_type_text RequestType.maturity_claim = "MATURITY_CLAIM"
request_type_text RequestType.survival_benefit = "SURVIVAL_BENEFIT"
request_type_text RequestType.commutation = "COMMUTATION"
request_type_text RequestType.conversion = "CONVERSION"
request_type_text RequestType.flc = "FLC"
request_type_text RequestType.paid_up = "PAID_UP"
request_type_text RequestType.nomination_change = "NOMINATION_CHANGE"
request_type_text RequestType.billing_method_change = "BILLING_METHOD_CHANGE"
request_type_text RequestType.assignment = "ASSIGNMENT"
request_type_text RequestType.address_change = "ADDRESS_CHANGE"
request_type_text RequestType.premium_refund = "PREMIUM_REFUND"
request_type_text RequestType.duplicate_bond = "DUPLICATE_BOND"
request_type_text RequestType.forced_surrender = "FORCED_SURRENDER"
request_type_text RequestType.admin_void = "ADMIN_VOID"
request_type_text RequestType.reopen = "REOPEN"
request_type_text (RequestType.unlisted s) = s

pub data RequestCategory : Type 0 where
  financial non_financial admin : RequestCategory
  unlisted : String → RequestCategory

-- `FinancialRequestTypes`, read with `v, ok := m[k]`: `none` where the key is missing.
unfoldable pub financial_request_types : RequestType → Option Bool
financial_request_types RequestType.surrender = some true
financial_request_types RequestType.loan = some true
financial_request_types RequestType.loan_repayment = some false
financial_request_types RequestType.revival = some true
financial_request_types RequestType.death_claim = some false
financial_request_types RequestType.maturity_claim = some true
financial_request_types RequestType.survival_benefit = some true
financial_request_types RequestType.commutation = some true
financial_request_types RequestType.conversion = some true
financial_request_types RequestType.flc = some true
financial_request_types RequestType.paid_up = some true
financial_request_types RequestType.forced_surrender = some true
financial_request_types _ = none

pub data RequestStatus : Type 0 where
  received state_gate_rejected routed in_progress completed cancelled withdrawn timed_out
        auto_terminated :
      RequestStatus

-- The outcome that a downstream service reports; `unlisted` is any other text.
pub data RequestOutcome : Type 0 where
  approved rejected withdrawn timeout preempted domain_rejected : RequestOutcome
  unlisted : String → RequestOutcome

unfoldable pub request_outcome_text : RequestOutcome → String
request_outcome_text RequestOutcome.approved = "APPROVED"
request_outcome_text RequestOutcome.rejected = "REJECTED"
request_outcome_text RequestOutcome.withdrawn = "WITHDRAWN"
request_outcome_text RequestOutcome.timeout = "TIMEOUT"
request_outcome_text RequestOutcome.preempted = "PREEMPTED"
request_outcome_text RequestOutcome.domain_rejected = "DOMAIN_REJECTED"
request_outcome_text (RequestOutcome.unlisted s) = s

-- `DownstreamTaskQueueForType`.
unfoldable pub downstream_task_queue_for_type : RequestType → String
downstream_task_queue_for_type RequestType.surrender = "surrender-tq"
downstream_task_queue_for_type RequestType.forced_surrender = "surrender-tq"
downstream_task_queue_for_type RequestType.loan = "loan-tq"
downstream_task_queue_for_type RequestType.loan_repayment = "loan-tq"
downstream_task_queue_for_type RequestType.revival = "revival-tq"
downstream_task_queue_for_type RequestType.death_claim = "claims-tq"
downstream_task_queue_for_type RequestType.maturity_claim = "claims-tq"
downstream_task_queue_for_type RequestType.survival_benefit = "claims-tq"
downstream_task_queue_for_type RequestType.commutation = "commutation-tq"
downstream_task_queue_for_type RequestType.conversion = "conversion-tq"
downstream_task_queue_for_type RequestType.flc = "freelook-tq"
downstream_task_queue_for_type RequestType.nomination_change = "nfs-tq"
downstream_task_queue_for_type RequestType.billing_method_change = "nfs-tq"
downstream_task_queue_for_type RequestType.assignment = "nfs-tq"
downstream_task_queue_for_type RequestType.address_change = "nfs-tq"
downstream_task_queue_for_type RequestType.duplicate_bond = "nfs-tq"
downstream_task_queue_for_type RequestType.premium_refund = "billing-tq"
downstream_task_queue_for_type _ = ""
