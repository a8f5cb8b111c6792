-- ===== src/Lifecycle/Payments.antt =====
-- policy_lifecycle_workflow.go: handlePremiumPaid, handlePaymentDishonored,
-- handleLoanBalanceUpdated.
pub mod Remission
use revival_integration.Base.{
  ◌-◌, ◌*◌, ◌/◌, Bool, false, not, ◌&&◌, ◌||◌, Option, none, some, [], ◌∷◌, ◌<>◌, ltb, leb,
  if◌then◌else◌,
}
use revival_integration.Stdlib.Duration.{Time, hour}
use revival_integration.Stdlib.Calendar.{add_12_months}
use revival_integration.Domain.Status.{Status, status_eq}
use revival_integration.Lifecycle.Signal.{
  PremiumPaidSignal, PaymentDishonoredSignal, LoanBalanceUpdatedSignal, Payload,
}
use revival_integration.Lifecycle.Command.{MetadataValue}
use revival_integration.Lifecycle.World.{
  Env, World, put, seen, mark_processed, audit, update_metadata,
}
use revival_integration.Lifecycle.Transition.{do_transition}
use revival_integration.Lifecycle.Routing.{
  signal_premium_paid, signal_payment_dishonored, signal_loan_balance_updated,
}

-- `expiry != nil && paid.Before(*expiry)`
abbrev within_remission : Time → Option Time → Bool
within_remission paid none = false
within_remission paid (some expiry) = ltb paid expiry

-- A lapsed policy revives within the remission period.
revive_lapsed : Env → PremiumPaidSignal → World → World
revive_lapsed env sig w =
    if (status_eq w.state.current_status Status.void_lapse
        || status_eq w.state.current_status Status.inactive_lapse)
      && within_remission sig.payment_date w.state.metadata.remission_expiry_date
    then do_transition env w.state.current_status Status.active
        "premium paid within remission period" signal_premium_paid sig.request_id w
    else w

clear_auto_surrender : Env → PremiumPaidSignal → World → World
clear_auto_surrender env sig w =
    if status_eq w.state.current_status Status.pending_auto_surrender
    then do_transition env w.state.current_status Status.active
        "premium paid clears pending auto surrender" signal_premium_paid sig.request_id w
    else w

unfoldable pub handle_premium_paid : Env → PremiumPaidSignal → World → World
unfolding revive_lapsed clear_auto_surrender
handle_premium_paid env sig w =
    let logged = audit signal_premium_paid (Payload.premium_paid sig) sig.request_id w in
    let paid =
      put
        (record logged.state {
          metadata = record logged.state.metadata { paid_to_date = sig.new_paid_to_date };
        })
        logged in
    let cleared = clear_auto_surrender env sig (revive_lapsed env sig paid) in
    if seen sig.request_id w
    then w
    else mark_processed env sig.request_id
        (update_metadata (("paid_to_date", MetadataValue.date sig.new_paid_to_date) ∷ []) cleared)

-- `int(dishonored.Sub(issue).Hours() / (24 * 30)) >= 36`; a negative age is below 36 too.
pub is_three_years_old : Time → Time → Bool
is_three_years_old issue dishonored = leb 36 ((dishonored - issue) / (720 * hour))

unfoldable pub handle_payment_dishonored : Env → PaymentDishonoredSignal → World → World
unfolding is_three_years_old
handle_payment_dishonored env sig w =
    let logged =
      audit signal_payment_dishonored (Payload.payment_dishonored sig) sig.request_id w in
    let lapse =
      if is_three_years_old w.state.metadata.issue_date sig.dishonored_date
      then Status.inactive_lapse
      else Status.void_lapse in
    let expiry = add_12_months sig.dishonored_date in
    let dated =
      put
        (record logged.state {
          metadata = record logged.state.metadata { remission_expiry_date = some expiry };
        })
        logged in
    let moved =
      do_transition env Status.active lapse ("payment dishonored: " <> sig.reason)
        signal_payment_dishonored sig.request_id dated in
    if seen sig.request_id w
    then w
    else if not (status_eq w.state.current_status Status.active)
    then mark_processed env sig.request_id logged
    else mark_processed env sig.request_id
        (update_metadata (("remission_expiry_date", MetadataValue.date expiry) ∷ []) moved)

unfoldable pub handle_loan_balance_updated : Env → LoanBalanceUpdatedSignal → World → World
handle_loan_balance_updated env sig w =
    let logged =
      audit signal_loan_balance_updated (Payload.loan_balance_updated sig) sig.request_id w in
    let updated =
      put
        (record logged.state {
          metadata = record logged.state.metadata { loan_outstanding = sig.loan_outstanding };
        })
        logged in
    if seen sig.request_id w
    then w
    else mark_processed env sig.request_id (
        update_metadata (("loan_outstanding", MetadataValue.number sig.loan_outstanding) ∷ [])
          updated)
