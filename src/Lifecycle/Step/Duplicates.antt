-- ===== src/Lifecycle/Step/Duplicates.antt =====
-- policy_lifecycle_workflow.go: the duplicate checks at the head of the handlers.
use revival_integration.Base.{◌≡◌, true, false, some, String, arith}
use revival_integration.Lifecycle.Signal.{Signal}
use revival_integration.Lifecycle.World.{Env, World, seen}
use revival_integration.Lifecycle.Request.{
  dedup_key, handle_financial_request, handle_death_notification, handle_nfr_request,
}
use revival_integration.Lifecycle.Completion.{handle_operation_completed, handle_claim_settled}
use revival_integration.Lifecycle.Payments.{
  handle_premium_paid, handle_payment_dishonored, handle_loan_balance_updated,
}
use revival_integration.Lifecycle.Compliance.{
  handle_aml_flag_raised, handle_aml_flag_cleared, handle_investigation_started,
  handle_investigation_concluded, handle_conversion_reversed, handle_dispute_registered,
  handle_dispute_resolved,
}
use revival_integration.Lifecycle.Administration.{
  handle_customer_id_merge, handle_admin_void, handle_voluntary_paid_up, handle_withdrawal,
}
use revival_integration.Lifecycle.Created.{handle_policy_created}
use revival_integration.Lifecycle.Step.{handle_signal}
use revival_integration.Lifecycle.Step.Keys.{signal_key}

-- A signal whose key is remembered does nothing at all: no field of the state changes, no command
-- is issued, and the policy does not reach a terminal status by it.
pub duplicate_ignored :
    (env : Env) (s : Signal) (w : World) {key : String}
    → signal_key s ≡ some key
    → seen key w ≡ true
    → handle_signal env s w ≡ (w, false)
unfolding handle_signal handle_financial_request handle_death_notification handle_nfr_request
    dedup_key handle_operation_completed handle_claim_settled handle_premium_paid
    handle_payment_dishonored handle_loan_balance_updated handle_aml_flag_raised
    handle_aml_flag_cleared handle_investigation_started handle_investigation_concluded
    handle_conversion_reversed handle_dispute_registered handle_dispute_resolved
    handle_customer_id_merge handle_admin_void handle_voluntary_paid_up handle_withdrawal
    handle_policy_created
duplicate_ignored env (Signal.policy_created s) w k h = ground arith
duplicate_ignored env _ w k h = ground arith
