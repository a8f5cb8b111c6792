-- ===== src/Lifecycle/Step/DatabaseLock.antt =====
-- policy_lifecycle_workflow.go: the lock in memory and the lock in the database, under every signal.
use revival_integration.Base.{◌≡◌, refl, Bool, true, false, List, [], ◌∷◌, arith, is_some, String}
use revival_integration.Lifecycle.State.{PendingRequest}
use revival_integration.Lifecycle.Command.{Command}
use revival_integration.Lifecycle.Signal.{
  Signal, PremiumPaidSignal, PaymentDishonoredSignal, LoanBalanceUpdatedSignal, AmlFlagRaisedSignal,
  AmlFlagClearedSignal, InvestigationStartedSignal, InvestigationConcludedSignal,
  ConversionReversedSignal, VoluntaryPaidUpSignal, PolicyCreatedSignal, PolicyRequestSignal,
  OperationCompletedSignal, AdminVoidSignal, WithdrawalRequestSignal,
}
use revival_integration.Lifecycle.World.{Env, World, emit}
use revival_integration.Lifecycle.Transition.{do_transition}
use revival_integration.Lifecycle.Request.{
  refresh_state, reject_at_gate, reject_suspended, pre_route, acquire_lock, dispatch_child,
  route_financial, decide_financial, give_way, handle_financial_request, handle_death_notification,
  handle_nfr_request,
}
use revival_integration.Lifecycle.Completion.{
  update_encumbrances, release_lock_of, apply_resolution, complete_matched,
  handle_operation_completed, handle_nfr_completed, handle_claim_settled,
}
use revival_integration.Lifecycle.Payments.{
  handle_premium_paid, handle_payment_dishonored, handle_loan_balance_updated,
}
use revival_integration.Lifecycle.Compliance.{
  handle_aml_flag_raised, handle_aml_flag_cleared, handle_investigation_started,
  handle_investigation_concluded, handle_conversion_reversed, handle_dispute_registered,
  handle_dispute_resolved,
}
use revival_integration.Lifecycle.Administration.{
  handle_customer_id_merge, handle_voluntary_paid_up, handle_admin_void, handle_withdrawal,
  cancel_all,
}
use revival_integration.Lifecycle.Administration.Frame.{cancel_all-state}
use revival_integration.Lifecycle.Created.{handle_policy_created}
use revival_integration.Lifecycle.Step.{handle_signal, sync_batch_state}

-- What the commands issued so far leave in the database's lock table, for this policy.
abbrev pub locked_in_database : List Command → Bool
locked_in_database [] = false
locked_in_database (Command.acquire_financial_lock _ ∷ cs) = true
locked_in_database (Command.release_financial_lock _ ∷ cs) = false
locked_in_database (_ ∷ cs) = locked_in_database cs

-- The workflow holds a lock in memory just when the database has one.
abbrev pub LocksAgree : World → Type 0
LocksAgree w = locked_in_database w.trace ≡ is_some w.state.active_lock

cancel_all-locked :
    (prs : List PendingRequest) (w : World)
    → locked_in_database (cancel_all prs w).trace ≡ locked_in_database w.trace
unfolding cancel_all
cancel_all-locked [] w = refl
cancel_all-locked (p ∷ prs) w =
    cancel_all-locked prs (emit (Command.cancel_downstream_workflow p.downstream_workflow) w)

-- Requests.
module _ (env : Env) where
  route_financial-LocksAgree :
      (key : String) (sig : PolicyRequestSignal) (w : World)
      → LocksAgree w
      → LocksAgree (route_financial env key sig w)
  unfolding route_financial dispatch_child acquire_lock pre_route do_transition
  route_financial-LocksAgree key sig w h = ground arith

  handle_financial_request-LocksAgree :
      (sig : PolicyRequestSignal) (w : World)
      → LocksAgree w
      → LocksAgree (handle_financial_request env sig w)
  unfolding handle_financial_request decide_financial reject_at_gate reject_suspended refresh_state
  handle_financial_request-LocksAgree sig w h = grind (arith, route_financial-LocksAgree)

  give_way-LocksAgree : (w : World) → LocksAgree w → LocksAgree (give_way w)
  unfolding give_way
  give_way-LocksAgree w h = ground arith

  handle_death_notification-LocksAgree :
      (sig : PolicyRequestSignal) (w : World)
      → LocksAgree w
      → LocksAgree (handle_death_notification env sig w)
  unfolding handle_death_notification
  handle_death_notification-LocksAgree sig w h =
      ground (arith, handle_financial_request-LocksAgree sig (give_way w), give_way-LocksAgree w)

  handle_nfr_request-LocksAgree :
      (sig : PolicyRequestSignal) (w : World)
      → LocksAgree w
      → LocksAgree (handle_nfr_request env sig w)
  unfolding handle_nfr_request reject_at_gate refresh_state dispatch_child
  handle_nfr_request-LocksAgree sig w h = ground arith

  complete_matched-LocksAgree :
      (sig : OperationCompletedSignal) (pr : PendingRequest) (w : World)
      → LocksAgree w
      → LocksAgree (complete_matched env sig pr w).0
  unfolding complete_matched release_lock_of apply_resolution update_encumbrances do_transition
  complete_matched-LocksAgree sig pr w h = ground arith

  handle_operation_completed-LocksAgree :
      (sig : OperationCompletedSignal) (w : World)
      → LocksAgree w
      → LocksAgree (handle_operation_completed env sig w).0
  unfolding handle_operation_completed
  handle_operation_completed-LocksAgree sig w h = grind (arith, complete_matched-LocksAgree)

  handle_nfr_completed-LocksAgree :
      (sig : OperationCompletedSignal) (w : World)
      → LocksAgree w
      → LocksAgree (handle_nfr_completed env sig w)
  unfolding handle_nfr_completed
  handle_nfr_completed-LocksAgree sig w h = ground arith

  handle_admin_void-LocksAgree :
      (sig : AdminVoidSignal) (w : World)
      → LocksAgree w
      → LocksAgree (handle_admin_void env sig w).0
  unfolding handle_admin_void do_transition
  handle_admin_void-LocksAgree sig w h = grind (arith, cancel_all-locked, cancel_all-state)

  handle_withdrawal-LocksAgree :
      (sig : WithdrawalRequestSignal) (w : World)
      → LocksAgree w
      → LocksAgree (handle_withdrawal env sig w)
  unfolding handle_withdrawal release_lock_of do_transition
  handle_withdrawal-LocksAgree sig w h = ground arith

-- The handlers that leave the lock alone.
module _ (env : Env) (w : World) (h : LocksAgree w) where
  handle_premium_paid-LocksAgree :
      (s : PremiumPaidSignal) → LocksAgree (handle_premium_paid env s w)
  unfolding handle_premium_paid do_transition
  handle_premium_paid-LocksAgree s = ground arith

  handle_payment_dishonored-LocksAgree :
      (s : PaymentDishonoredSignal) → LocksAgree (handle_payment_dishonored env s w)
  unfolding handle_payment_dishonored do_transition
  handle_payment_dishonored-LocksAgree s = ground arith

  handle_loan_balance_updated-LocksAgree :
      (s : LoanBalanceUpdatedSignal) → LocksAgree (handle_loan_balance_updated env s w)
  unfolding handle_loan_balance_updated do_transition
  handle_loan_balance_updated-LocksAgree s = ground arith

  handle_aml_flag_raised-LocksAgree :
      (s : AmlFlagRaisedSignal) → LocksAgree (handle_aml_flag_raised env s w)
  unfolding handle_aml_flag_raised do_transition
  handle_aml_flag_raised-LocksAgree s = ground arith

  handle_aml_flag_cleared-LocksAgree :
      (s : AmlFlagClearedSignal) → LocksAgree (handle_aml_flag_cleared env s w)
  unfolding handle_aml_flag_cleared do_transition
  handle_aml_flag_cleared-LocksAgree s = ground arith

  handle_investigation_started-LocksAgree :
      (s : InvestigationStartedSignal) → LocksAgree (handle_investigation_started env s w)
  unfolding handle_investigation_started do_transition
  handle_investigation_started-LocksAgree s = ground arith

  handle_investigation_concluded-LocksAgree :
      (s : InvestigationConcludedSignal) → LocksAgree (handle_investigation_concluded env s w).0
  unfolding handle_investigation_concluded do_transition
  handle_investigation_concluded-LocksAgree s = ground arith

  handle_conversion_reversed-LocksAgree :
      (s : ConversionReversedSignal) → LocksAgree (handle_conversion_reversed env s w)
  unfolding handle_conversion_reversed do_transition
  handle_conversion_reversed-LocksAgree s = ground arith

  handle_voluntary_paid_up-LocksAgree :
      (s : VoluntaryPaidUpSignal) → LocksAgree (handle_voluntary_paid_up env s w).0
  unfolding handle_voluntary_paid_up do_transition
  handle_voluntary_paid_up-LocksAgree s = ground arith

  handle_policy_created-LocksAgree :
      (s : PolicyCreatedSignal) → LocksAgree (handle_policy_created env s w)
  unfolding handle_policy_created do_transition
  handle_policy_created-LocksAgree s = ground arith

-- Every signal keeps the two locks in step: the workflow holds a lock in memory just when the last
-- lock command that it issued took the one in the database.
pub handle_signal-LocksAgree :
    (env : Env) (s : Signal) (w : World) → LocksAgree w → LocksAgree (handle_signal env s w).0
unfolding handle_signal handle_claim_settled handle_dispute_registered handle_dispute_resolved
    handle_customer_id_merge sync_batch_state
handle_signal-LocksAgree env (Signal.nfr_completed s) w h =
    handle_nfr_completed-LocksAgree env s w h
handle_signal-LocksAgree env (Signal.nfr_request s) w h = handle_nfr_request-LocksAgree env s w h
handle_signal-LocksAgree env (Signal.admin_void s) w h = handle_admin_void-LocksAgree env s w h
handle_signal-LocksAgree env (Signal.withdrawal_request s) w h =
    handle_withdrawal-LocksAgree env s w h
handle_signal-LocksAgree env (Signal.death_notification s) w h =
    handle_death_notification-LocksAgree env _ w h
handle_signal-LocksAgree env (Signal.premium_paid s) w h = handle_premium_paid-LocksAgree env w h s
handle_signal-LocksAgree env (Signal.payment_dishonored s) w h =
    handle_payment_dishonored-LocksAgree env w h s
handle_signal-LocksAgree env (Signal.loan_balance_updated s) w h =
    handle_loan_balance_updated-LocksAgree env w h s
handle_signal-LocksAgree env (Signal.aml_flag_raised s) w h =
    handle_aml_flag_raised-LocksAgree env w h s
handle_signal-LocksAgree env (Signal.aml_flag_cleared s) w h =
    handle_aml_flag_cleared-LocksAgree env w h s
handle_signal-LocksAgree env (Signal.investigation_started s) w h =
    handle_investigation_started-LocksAgree env w h s
handle_signal-LocksAgree env (Signal.investigation_concluded s) w h =
    handle_investigation_concluded-LocksAgree env w h s
handle_signal-LocksAgree env (Signal.conversion_reversed s) w h =
    handle_conversion_reversed-LocksAgree env w h s
handle_signal-LocksAgree env (Signal.voluntary_paid_up_request s) w h =
    handle_voluntary_paid_up-LocksAgree env w h s
handle_signal-LocksAgree env (Signal.policy_created s) w h =
    handle_policy_created-LocksAgree env w h s
handle_signal-LocksAgree env (Signal.dispute_registered s) w h = ground arith
handle_signal-LocksAgree env (Signal.dispute_resolved s) w h = ground arith
handle_signal-LocksAgree env (Signal.customer_id_merge s) w h = ground arith
handle_signal-LocksAgree env (Signal.batch_state_sync s) w h = h
handle_signal-LocksAgree env _ w h =
    grind (arith, handle_financial_request-LocksAgree, handle_operation_completed-LocksAgree)
