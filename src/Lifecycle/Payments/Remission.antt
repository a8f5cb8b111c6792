-- ===== src/Lifecycle/Payments/Remission.antt =====
-- policy_lifecycle_workflow.go: a payment is dishonored, and a later premium revives the policy.
use revival_integration.Base.{◌≡◌, false, some, arith, ltb, if◌then◌else◌}
use revival_integration.Stdlib.Calendar.{add_12_months}
use revival_integration.Domain.Status.{Status, status_eq}
use revival_integration.Lifecycle.Signal.{PremiumPaidSignal, PaymentDishonoredSignal}
use revival_integration.Lifecycle.World.{Env, World, seen}
use revival_integration.Lifecycle.Transition.{do_transition}
use revival_integration.Lifecycle.Payments.{
  is_three_years_old, handle_premium_paid, handle_payment_dishonored,
}

-- The lapse that a dishonored payment leads to: by the policy's age at that date.
abbrev pub lapse_status : World → PaymentDishonoredSignal → Status
lapse_status w sig =
    if is_three_years_old w.state.metadata.issue_date sig.dishonored_date
    then Status.inactive_lapse
    else Status.void_lapse

module _ (env : Env) (dishonored : PaymentDishonoredSignal) (paid : PremiumPaidSignal) (w : World)
    (active : w.state.current_status ≡ Status.active) (new : seen dishonored.request_id w ≡ false)
    (new' : seen paid.request_id (handle_payment_dishonored env dishonored w) ≡ false) where
  lapsed :
      ((handle_payment_dishonored env dishonored w).state.current_status
        ≡ lapse_status w dishonored)
      × ((handle_payment_dishonored env dishonored w).state.metadata.remission_expiry_date
          ≡ some (add_12_months dishonored.dishonored_date))
  unfolding handle_payment_dishonored do_transition status_eq
  lapsed = (ground arith, ground arith)

  -- A dishonored payment lapses an active policy, by its age at that date, and the next premium
  -- makes it active again exactly if it is paid before the same day of the next year.
  pub premium_after_dishonor :
      ((handle_payment_dishonored env dishonored w).state.current_status
        ≡ lapse_status w dishonored)
      × ((handle_premium_paid env paid
            (handle_payment_dishonored env dishonored w)).state.current_status
          ≡ (if ltb paid.payment_date (add_12_months dishonored.dishonored_date)
              then Status.active
              else lapse_status w dishonored))
  unfolding handle_premium_paid do_transition status_eq
  premium_after_dishonor = (lapsed.0, ground (arith, lapsed))
