-- ===== src/Lifecycle/Routing.antt =====
-- signals.go: signal names and the tables of downstream workflows; requestTypeToSignalName of
-- policy_lifecycle_workflow.go.
use revival_integration.Base.{String}
use revival_integration.Domain.Request.{RequestType}

abbrev pub signal_surrender_request : String
signal_surrender_request = "surrender-request"

abbrev pub signal_loan_request : String
signal_loan_request = "loan-request"

abbrev pub signal_loan_repayment : String
signal_loan_repayment = "loan-repayment"

abbrev pub signal_revival_request : String
signal_revival_request = "revival-request"

abbrev pub signal_death_notification : String
signal_death_notification = "death-notification"

abbrev pub signal_maturity_claim_request : String
signal_maturity_claim_request = "maturity-claim-request"

abbrev pub signal_survival_benefit_request : String
signal_survival_benefit_request = "survival-benefit-request"

abbrev pub signal_commutation_request : String
signal_commutation_request = "commutation-request"

abbrev pub signal_conversion_request : String
signal_conversion_request = "conversion-request"

abbrev pub signal_flc_request : String
signal_flc_request = "flc-request"

abbrev pub signal_forced_surrender_trigger : String
signal_forced_surrender_trigger = "forced-surrender-trigger"

abbrev pub signal_nfr_request : String
signal_nfr_request = "nfr-request"

abbrev pub signal_premium_paid : String
signal_premium_paid = "premium-paid"

abbrev pub signal_payment_dishonored : String
signal_payment_dishonored = "payment-dishonored"

abbrev pub signal_aml_flag_raised : String
signal_aml_flag_raised = "aml-flag-raised"

abbrev pub signal_aml_flag_cleared : String
signal_aml_flag_cleared = "aml-flag-cleared"

abbrev pub signal_investigation_started : String
signal_investigation_started = "investigation-started"

abbrev pub signal_investigation_concluded : String
signal_investigation_concluded = "investigation-concluded"

abbrev pub signal_loan_balance_updated : String
signal_loan_balance_updated = "loan-balance-updated"

abbrev pub signal_conversion_reversed : String
signal_conversion_reversed = "conversion-reversed"

abbrev pub signal_admin_void : String
signal_admin_void = "admin-void"

abbrev pub signal_customer_id_merge : String
signal_customer_id_merge = "customer-id-merge"

abbrev pub signal_voluntary_paidup_request : String
signal_voluntary_paidup_request = "voluntary-paidup-request"

abbrev pub signal_withdrawal_request : String
signal_withdrawal_request = "withdrawal-request"

abbrev pub signal_dispute_registered : String
signal_dispute_registered = "dispute-registered"

abbrev pub signal_dispute_resolved : String
signal_dispute_resolved = "dispute-resolved"

abbrev pub signal_reopen_request : String
signal_reopen_request = "reopen-request"

-- `requestTypeToSignalName`.
unfoldable pub request_type_to_signal_name : RequestType → String
request_type_to_signal_name RequestType.surrender = signal_surrender_request
request_type_to_signal_name RequestType.loan = signal_loan_request
request_type_to_signal_name RequestType.loan_repayment = signal_loan_repayment
request_type_to_signal_name RequestType.revival = signal_revival_request
request_type_to_signal_name RequestType.death_claim = signal_death_notification
request_type_to_signal_name RequestType.maturity_claim = signal_maturity_claim_request
request_type_to_signal_name RequestType.survival_benefit = signal_survival_benefit_request
request_type_to_signal_name RequestType.commutation = signal_commutation_request
request_type_to_signal_name RequestType.conversion = signal_conversion_request
request_type_to_signal_name RequestType.flc = signal_flc_request
request_type_to_signal_name RequestType.forced_surrender = signal_forced_surrender_trigger
request_type_to_signal_name RequestType.paid_up = signal_voluntary_paidup_request
request_type_to_signal_name _ = signal_nfr_request

-- `DownstreamWorkflowTypeForRequest`.
unfoldable pub downstream_workflow_type_for_request : RequestType → String
downstream_workflow_type_for_request RequestType.surrender = "SurrenderProcessingWorkflow"
downstream_workflow_type_for_request RequestType.forced_surrender = "ForcedSurrenderWorkflow"
downstream_workflow_type_for_request RequestType.loan = "LoanProcessingWorkflow"
downstream_workflow_type_for_request RequestType.loan_repayment = "LoanRepaymentWorkflow"
downstream_workflow_type_for_request RequestType.revival = "InstallmentRevivalWorkflow"
downstream_workflow_type_for_request RequestType.death_claim = "DeathClaimSettlementWorkflow"
downstream_workflow_type_for_request RequestType.maturity_claim = "MaturityClaimWorkflow"
downstream_workflow_type_for_request RequestType.survival_benefit = "SurvivalBenefitClaimWorkflow"
downstream_workflow_type_for_request RequestType.commutation = "CommutationRequestWorkflow"
downstream_workflow_type_for_request RequestType.conversion = "ConversionMainWorkflow"
downstream_workflow_type_for_request RequestType.flc = "FreelookCancellationWorkflow"
downstream_workflow_type_for_request RequestType.assignment = "AssignmentProcessingWorkflow"
downstream_workflow_type_for_request RequestType.premium_refund = "PremiumRefundWorkflow"
downstream_workflow_type_for_request _ = "NFRProcessingWorkflow"

-- `DownstreamChildIDPrefix`.
unfoldable pub downstream_child_id_prefix : RequestType → String
downstream_child_id_prefix RequestType.surrender = "sur"
downstream_child_id_prefix RequestType.forced_surrender = "fs"
downstream_child_id_prefix RequestType.loan = "loan"
downstream_child_id_prefix RequestType.loan_repayment = "lrp"
downstream_child_id_prefix RequestType.revival = "rev"
downstream_child_id_prefix RequestType.death_claim = "dc"
downstream_child_id_prefix RequestType.maturity_claim = "mc"
downstream_child_id_prefix RequestType.survival_benefit = "sb"
downstream_child_id_prefix RequestType.commutation = "com"
downstream_child_id_prefix RequestType.conversion = "cnv"
downstream_child_id_prefix RequestType.flc = "flc"
downstream_child_id_prefix _ = "nfr"
