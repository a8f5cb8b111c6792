-- ===== src/Lifecycle/Step/Locks.antt =====
-- policy_lifecycle_workflow.go: the financial lock under every signal, and under whole runs.
use revival_integration.Base.{◌≡◌, Bool, false, arith}
use revival_integration.Lifecycle.Signal.{
  Signal, PremiumPaidSignal, PaymentDishonoredSignal, LoanBalanceUpdatedSignal, AmlFlagRaisedSignal,
  AmlFlagClearedSignal, InvestigationStartedSignal, InvestigationConcludedSignal,
  ConversionReversedSignal, VoluntaryPaidUpSignal, PolicyCreatedSignal,
}
use revival_integration.Lifecycle.World.{Env, World}
use revival_integration.Lifecycle.Transition.{do_transition}
use revival_integration.Lifecycle.Request.Locks.{
  handle_financial_request-LockIsCovered, handle_death_notification-LockIsCovered,
  handle_nfr_request-LockIsCovered,
}
use revival_integration.Lifecycle.Completion.{handle_claim_settled}
use revival_integration.Lifecycle.Completion.Locks.{
  handle_operation_completed-LockIsCovered, handle_nfr_completed-LockIsCovered,
}
use revival_integration.Lifecycle.Payments.{
  handle_premium_paid, handle_payment_dishonored, handle_loan_balance_updated,
}
use revival_integration.Lifecycle.Compliance.{
  handle_aml_flag_raised, handle_aml_flag_cleared, handle_investigation_started,
  handle_investigation_concluded, handle_conversion_reversed, handle_dispute_registered,
  handle_dispute_resolved,
}
use revival_integration.Lifecycle.Administration.{
  handle_customer_id_merge, handle_voluntary_paid_up,
}
use revival_integration.Lifecycle.Administration.Locks.{
  handle_admin_void-LockIsCovered, handle_withdrawal-LockIsCovered,
}
use revival_integration.Lifecycle.Created.{handle_policy_created}
use revival_integration.Lifecycle.Pending.Locks.{LockIsCovered, holds_lock}
use revival_integration.Lifecycle.Step.{handle_signal, sync_batch_state}

-- nfr-completed carries the identifier of the request that holds the lock.
abbrev pub completes_holder_as_nfr : Signal → World → Bool
completes_holder_as_nfr (Signal.nfr_completed sig) w = holds_lock sig.request_id w.state.active_lock
completes_holder_as_nfr _ w = false

-- The handlers that touch neither the lock nor the pending requests.
module _ (env : Env) (w : World) (h : LockIsCovered w) where
  handle_premium_paid-LockIsCovered :
      (s : PremiumPaidSignal) → LockIsCovered (handle_premium_paid env s w)
  unfolding handle_premium_paid do_transition
  handle_premium_paid-LockIsCovered s = ground arith

  handle_payment_dishonored-LockIsCovered :
      (s : PaymentDishonoredSignal) → LockIsCovered (handle_payment_dishonored env s w)
  unfolding handle_payment_dishonored do_transition
  handle_payment_dishonored-LockIsCovered s = ground arith

  handle_loan_balance_updated-LockIsCovered :
      (s : LoanBalanceUpdatedSignal) → LockIsCovered (handle_loan_balance_updated env s w)
  unfolding handle_loan_balance_updated do_transition
  handle_loan_balance_updated-LockIsCovered s = ground arith

  handle_aml_flag_raised-LockIsCovered :
      (s : AmlFlagRaisedSignal) → LockIsCovered (handle_aml_flag_raised env s w)
  unfolding handle_aml_flag_raised do_transition
  handle_aml_flag_raised-LockIsCovered s = ground arith

  handle_aml_flag_cleared-LockIsCovered :
      (s : AmlFlagClearedSignal) → LockIsCovered (handle_aml_flag_cleared env s w)
  unfolding handle_aml_flag_cleared do_transition
  handle_aml_flag_cleared-LockIsCovered s = ground arith

  handle_investigation_started-LockIsCovered :
      (s : InvestigationStartedSignal) → LockIsCovered (handle_investigation_started env s w)
  unfolding handle_investigation_started do_transition
  handle_investigation_started-LockIsCovered s = ground arith

  handle_investigation_concluded-LockIsCovered :
      (s : InvestigationConcludedSignal) → LockIsCovered (handle_investigation_concluded env s w).0
  unfolding handle_investigation_concluded do_transition
  handle_investigation_concluded-LockIsCovered s = ground arith

  handle_conversion_reversed-LockIsCovered :
      (s : ConversionReversedSignal) → LockIsCovered (handle_conversion_reversed env s w)
  unfolding handle_conversion_reversed do_transition
  handle_conversion_reversed-LockIsCovered s = ground arith

  handle_voluntary_paid_up-LockIsCovered :
      (s : VoluntaryPaidUpSignal) → LockIsCovered (handle_voluntary_paid_up env s w).0
  unfolding handle_voluntary_paid_up do_transition
  handle_voluntary_paid_up-LockIsCovered s = ground arith

  handle_policy_created-LockIsCovered :
      (s : PolicyCreatedSignal) → LockIsCovered (handle_policy_created env s w)
  unfolding handle_policy_created do_transition
  handle_policy_created-LockIsCovered s = ground arith

-- Every signal keeps the lock covered by a pending request with the lock's identifier; the exception
-- is an nfr-completed for the request that holds the lock.
pub handle_signal-LockIsCovered :
    (env : Env) (s : Signal) (w : World)
    → completes_holder_as_nfr s w ≡ false
    → LockIsCovered w
    → LockIsCovered (handle_signal env s w).0
unfolding handle_signal handle_claim_settled handle_dispute_registered handle_dispute_resolved
    handle_customer_id_merge sync_batch_state
handle_signal-LockIsCovered env (Signal.nfr_completed s) w n h =
    handle_nfr_completed-LockIsCovered env s w n h
handle_signal-LockIsCovered env (Signal.nfr_request s) w n h =
    handle_nfr_request-LockIsCovered env s w h
handle_signal-LockIsCovered env (Signal.admin_void s) w n h =
    handle_admin_void-LockIsCovered env s w h
handle_signal-LockIsCovered env (Signal.withdrawal_request s) w n h =
    handle_withdrawal-LockIsCovered env s w h
handle_signal-LockIsCovered env (Signal.death_notification s) w n h =
    handle_death_notification-LockIsCovered env _ w h
handle_signal-LockIsCovered env (Signal.premium_paid s) w n h =
    handle_premium_paid-LockIsCovered env w h s
handle_signal-LockIsCovered env (Signal.payment_dishonored s) w n h =
    handle_payment_dishonored-LockIsCovered env w h s
handle_signal-LockIsCovered env (Signal.loan_balance_updated s) w n h =
    handle_loan_balance_updated-LockIsCovered env w h s
handle_signal-LockIsCovered env (Signal.aml_flag_raised s) w n h =
    handle_aml_flag_raised-LockIsCovered env w h s
handle_signal-LockIsCovered env (Signal.aml_flag_cleared s) w n h =
    handle_aml_flag_cleared-LockIsCovered env w h s
handle_signal-LockIsCovered env (Signal.investigation_started s) w n h =
    handle_investigation_started-LockIsCovered env w h s
handle_signal-LockIsCovered env (Signal.investigation_concluded s) w n h =
    handle_investigation_concluded-LockIsCovered env w h s
handle_signal-LockIsCovered env (Signal.conversion_reversed s) w n h =
    handle_conversion_reversed-LockIsCovered env w h s
handle_signal-LockIsCovered env (Signal.voluntary_paid_up_request s) w n h =
    handle_voluntary_paid_up-LockIsCovered env w h s
handle_signal-LockIsCovered env (Signal.policy_created s) w n h =
    handle_policy_created-LockIsCovered env w h s
handle_signal-LockIsCovered env (Signal.dispute_registered s) w n h = ground arith
handle_signal-LockIsCovered env (Signal.dispute_resolved s) w n h = ground arith
handle_signal-LockIsCovered env (Signal.customer_id_merge s) w n h = ground arith
handle_signal-LockIsCovered env (Signal.batch_state_sync s) w n h = h
handle_signal-LockIsCovered env _ w n h =
    grind (arith, handle_financial_request-LockIsCovered, handle_operation_completed-LockIsCovered)
