-- ===== src/Lifecycle/Step.antt =====
-- policy_lifecycle_workflow.go: the callbacks of the selector in PolicyLifecycleWorkflow, one for
-- each channel. The second result is `reachedTerminal`.
pub mod Keys
pub mod Duplicates
pub mod Terminal
pub mod Frame
pub mod Locks
pub mod DatabaseLock
use revival_integration.Base.{Bool, false}
use revival_integration.Domain.Request.{RequestType}
use revival_integration.Lifecycle.Signal.{
  Signal, PolicyRequestSignal, OperationCompletedSignal, BatchStateSyncSignal,
}
use revival_integration.Lifecycle.World.{Env, World, now, put}
use revival_integration.Lifecycle.Transition.{compute_display_status, next_int64}
use revival_integration.Lifecycle.Request.{
  handle_financial_request, handle_death_notification, handle_nfr_request,
}
use revival_integration.Lifecycle.Completion.{
  handle_operation_completed, handle_claim_settled, handle_nfr_completed,
}
use revival_integration.Lifecycle.Payments.{
  handle_premium_paid, handle_payment_dishonored, handle_loan_balance_updated,
}
use revival_integration.Lifecycle.Compliance.{
  handle_aml_flag_raised, handle_aml_flag_cleared, handle_investigation_started,
  handle_investigation_concluded, handle_conversion_reversed, handle_dispute_registered,
  handle_dispute_resolved,
}
use revival_integration.Lifecycle.Administration.{
  handle_customer_id_merge, handle_admin_void, handle_voluntary_paid_up, handle_withdrawal,
}
use revival_integration.Lifecycle.Created.{handle_policy_created}

-- `sig.RequestType = …`
abbrev pub as_request : RequestType → PolicyRequestSignal → PolicyRequestSignal
as_request t sig = record sig { request_type = t }

abbrev pub as_completed : RequestType → OperationCompletedSignal → OperationCompletedSignal
as_completed t sig = record sig { request_type = t }

-- The batch job has written the database already, so this is in memory only.
unfoldable pub sync_batch_state : Env → BatchStateSyncSignal → World → World
sync_batch_state env sig w =
    put
      (record w.state {
        previous_status = w.state.current_status;
        current_status = sig.new_status;
        display_status = compute_display_status sig.new_status w.state.encumbrances;
        last_transition_at = now env w;
        version = next_int64 w.state.version;
      })
      w

module _ (env : Env) where
  abbrev request_financial : RequestType → PolicyRequestSignal → World → World × Bool
  request_financial t sig w = (handle_financial_request env (as_request t sig) w, false)

  abbrev complete_as : RequestType → OperationCompletedSignal → World → World × Bool
  complete_as t sig w = handle_operation_completed env (as_completed t sig) w

  unfoldable pub handle_signal : Signal → World → World × Bool
  handle_signal (Signal.policy_created s) w = (handle_policy_created env s w, false)
  handle_signal (Signal.surrender_request s) w = request_financial RequestType.surrender s w
  handle_signal (Signal.loan_request s) w = request_financial RequestType.loan s w
  handle_signal (Signal.loan_repayment s) w = request_financial RequestType.loan_repayment s w
  handle_signal (Signal.revival_request s) w = request_financial RequestType.revival s w
  handle_signal (Signal.death_notification s) w =
      (handle_death_notification env (as_request RequestType.death_claim s) w, false)
  handle_signal (Signal.maturity_claim_request s) w =
      request_financial RequestType.maturity_claim s w
  handle_signal (Signal.survival_benefit_request s) w =
      request_financial RequestType.survival_benefit s w
  handle_signal (Signal.commutation_request s) w = request_financial RequestType.commutation s w
  handle_signal (Signal.conversion_request s) w = request_financial RequestType.conversion s w
  handle_signal (Signal.flc_request s) w = request_financial RequestType.flc s w
  handle_signal (Signal.forced_surrender_trigger s) w =
      request_financial RequestType.forced_surrender s w
  handle_signal (Signal.nfr_request s) w = (handle_nfr_request env s w, false)
  handle_signal (Signal.surrender_completed s) w = complete_as RequestType.surrender s w
  handle_signal (Signal.forced_surrender_completed s) w =
      complete_as RequestType.forced_surrender s w
  handle_signal (Signal.loan_completed s) w = complete_as RequestType.loan s w
  handle_signal (Signal.loan_repayment_completed s) w = complete_as RequestType.loan_repayment s w
  handle_signal (Signal.revival_completed s) w = complete_as RequestType.revival s w
  handle_signal (Signal.claim_settled s) w = handle_claim_settled env s w
  handle_signal (Signal.commutation_completed s) w = complete_as RequestType.commutation s w
  handle_signal (Signal.conversion_completed s) w = complete_as RequestType.conversion s w
  handle_signal (Signal.flc_completed s) w = complete_as RequestType.flc s w
  handle_signal (Signal.nfr_completed s) w = (handle_nfr_completed env s w, false)
  handle_signal (Signal.operation_completed s) w = handle_operation_completed env s w
  handle_signal (Signal.premium_paid s) w = (handle_premium_paid env s w, false)
  handle_signal (Signal.payment_dishonored s) w = (handle_payment_dishonored env s w, false)
  handle_signal (Signal.aml_flag_raised s) w = (handle_aml_flag_raised env s w, false)
  handle_signal (Signal.aml_flag_cleared s) w = (handle_aml_flag_cleared env s w, false)
  handle_signal (Signal.investigation_started s) w = (handle_investigation_started env s w, false)
  handle_signal (Signal.investigation_concluded s) w = handle_investigation_concluded env s w
  handle_signal (Signal.loan_balance_updated s) w = (handle_loan_balance_updated env s w, false)
  handle_signal (Signal.conversion_reversed s) w = (handle_conversion_reversed env s w, false)
  handle_signal (Signal.admin_void s) w = handle_admin_void env s w
  handle_signal (Signal.customer_id_merge s) w = (handle_customer_id_merge env s w, false)
  handle_signal (Signal.voluntary_paid_up_request s) w = handle_voluntary_paid_up env s w
  handle_signal (Signal.withdrawal_request s) w = (handle_withdrawal env s w, false)
  handle_signal (Signal.dispute_registered s) w = (handle_dispute_registered env s w, false)
  handle_signal (Signal.dispute_resolved s) w = (handle_dispute_resolved env s w, false)
  handle_signal (Signal.batch_state_sync s) w = (sync_batch_state env s w, false)
