-- ===== src/Lifecycle/Step/Keys.antt =====
-- policy_lifecycle_workflow.go: the key under which each signal is remembered, if it is.
use revival_integration.Base.{Option, none, some, String}
use revival_integration.Lifecycle.Signal.{Signal}
use revival_integration.Lifecycle.Request.{dedup_key}

-- nfr-completed and batch-state-sync have no duplicate check.
abbrev pub signal_key : Signal → Option String
signal_key (Signal.policy_created s) = some s.request_id
signal_key (Signal.surrender_request s) = some (dedup_key s)
signal_key (Signal.loan_request s) = some (dedup_key s)
signal_key (Signal.loan_repayment s) = some (dedup_key s)
signal_key (Signal.revival_request s) = some (dedup_key s)
signal_key (Signal.death_notification s) = some (dedup_key s)
signal_key (Signal.maturity_claim_request s) = some (dedup_key s)
signal_key (Signal.survival_benefit_request s) = some (dedup_key s)
signal_key (Signal.commutation_request s) = some (dedup_key s)
signal_key (Signal.conversion_request s) = some (dedup_key s)
signal_key (Signal.flc_request s) = some (dedup_key s)
signal_key (Signal.forced_surrender_trigger s) = some (dedup_key s)
signal_key (Signal.nfr_request s) = some (dedup_key s)
signal_key (Signal.surrender_completed s) = some s.request_id
signal_key (Signal.forced_surrender_completed s) = some s.request_id
signal_key (Signal.loan_completed s) = some s.request_id
signal_key (Signal.loan_repayment_completed s) = some s.request_id
signal_key (Signal.revival_completed s) = some s.request_id
signal_key (Signal.claim_settled s) = some s.request_id
signal_key (Signal.commutation_completed s) = some s.request_id
signal_key (Signal.conversion_completed s) = some s.request_id
signal_key (Signal.flc_completed s) = some s.request_id
signal_key (Signal.nfr_completed s) = none
signal_key (Signal.operation_completed s) = some s.request_id
signal_key (Signal.premium_paid s) = some s.request_id
signal_key (Signal.payment_dishonored s) = some s.request_id
signal_key (Signal.aml_flag_raised s) = some s.request_id
signal_key (Signal.aml_flag_cleared s) = some s.request_id
signal_key (Signal.investigation_started s) = some s.request_id
signal_key (Signal.investigation_concluded s) = some s.request_id
signal_key (Signal.loan_balance_updated s) = some s.request_id
signal_key (Signal.conversion_reversed s) = some s.request_id
signal_key (Signal.admin_void s) = some s.request_id
signal_key (Signal.customer_id_merge s) = some s.request_id
signal_key (Signal.voluntary_paid_up_request s) = some s.request_id
signal_key (Signal.withdrawal_request s) = some s.request_id
signal_key (Signal.dispute_registered s) = some s.request_id
signal_key (Signal.dispute_resolved s) = some s.request_id
signal_key (Signal.batch_state_sync s) = none
