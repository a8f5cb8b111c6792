-- ===== src/Lifecycle/Compliance.antt =====
-- policy_lifecycle_workflow.go: the handlers of AML flags, death investigations, reversed
-- conversions and disputes.
pub mod Suspension
use text.Mathlib.Text.{◌==◌ as str_eq}
use revival_integration.Base.{Bool, true, false, not, ◌&&◌, String, ◌<>◌, if◌then◌else◌}
use revival_integration.Domain.Status.{Status, status_eq}
use revival_integration.Lifecycle.Signal.{
  AmlFlagRaisedSignal, AmlFlagClearedSignal, InvestigationStartedSignal,
  InvestigationConcludedSignal, ConversionReversedSignal, DisputeSignal, Payload,
}
use revival_integration.Lifecycle.World.{Env, World, put, seen, mark_processed, audit}
use revival_integration.Lifecycle.Transition.{do_transition}
use revival_integration.Lifecycle.Routing.{
  signal_aml_flag_raised, signal_aml_flag_cleared, signal_investigation_started,
  signal_investigation_concluded, signal_conversion_reversed, signal_dispute_registered,
  signal_dispute_resolved,
}

unfoldable pub handle_aml_flag_raised : Env → AmlFlagRaisedSignal → World → World
handle_aml_flag_raised env sig w =
    let logged = audit signal_aml_flag_raised (Payload.aml_flag_raised sig) sig.request_id w in
    let held =
      put
        (record logged.state {
          previous_status_before_suspension = logged.state.current_status;
          encumbrances = record logged.state.encumbrances { aml_hold = true };
        })
        logged in
    if seen sig.request_id w
    then w
    else mark_processed env sig.request_id (
        do_transition env held.state.current_status Status.suspended
          ("AML flag raised: " <> sig.reason) signal_aml_flag_raised sig.request_id held)

unfoldable pub handle_aml_flag_cleared : Env → AmlFlagClearedSignal → World → World
handle_aml_flag_cleared env sig w =
    let logged = audit signal_aml_flag_cleared (Payload.aml_flag_cleared sig) sig.request_id w in
    let saved = logged.state.previous_status_before_suspension in
    let target = if status_eq saved Status.unset then Status.active else saved in
    let released =
      put
        (record logged.state {
          encumbrances = record logged.state.encumbrances { aml_hold = false };
          previous_status_before_suspension = Status.unset;
        })
        logged in
    if seen sig.request_id w
    then w
    else mark_processed env sig.request_id (
        do_transition env Status.suspended target "AML flag cleared — restoring previous status"
          signal_aml_flag_cleared sig.request_id released)

unfoldable pub handle_investigation_started : Env → InvestigationStartedSignal → World → World
handle_investigation_started env sig w =
    let logged =
      audit signal_investigation_started (Payload.investigation_started sig) sig.request_id w in
    if seen sig.request_id w
    then w
    else mark_processed env sig.request_id (
        if status_eq logged.state.current_status Status.death_claim_intimated
        then do_transition env Status.death_claim_intimated Status.death_under_investigation
            "death investigation started" signal_investigation_started sig.request_id logged
        else logged)

unfoldable pub handle_investigation_concluded :
    Env → InvestigationConcludedSignal → World → World × Bool
handle_investigation_concluded env sig w =
    let logged =
      audit signal_investigation_concluded (Payload.investigation_concluded sig) sig.request_id w in
    let conclude = λ (to : Status) (reason : String).
      do_transition env Status.death_under_investigation to reason signal_investigation_concluded
        sig.request_id logged in
    if seen sig.request_id w
    then (w, false)
    else if not (status_eq logged.state.current_status Status.death_under_investigation)
    then (mark_processed env sig.request_id logged, false)
    else if str_eq sig.outcome "CONFIRMED"
    then (
      mark_processed env sig.request_id
          (conclude Status.death_claim_settled "investigation confirmed — claim settled"),
      true,
    )
    else (
      mark_processed env sig.request_id
          (conclude Status.death_claim_intimated "investigation rejected — reverting"),
      false,
    )

unfoldable pub handle_conversion_reversed : Env → ConversionReversedSignal → World → World
handle_conversion_reversed env sig w =
    let logged =
      audit signal_conversion_reversed (Payload.conversion_reversed sig) sig.request_id w in
    if seen sig.request_id w
    then w
    else mark_processed env sig.request_id (
        if status_eq logged.state.current_status Status.converted
          && not (status_eq logged.state.previous_status Status.unset)
        then do_transition env Status.converted logged.state.previous_status
            ("conversion reversed: " <> sig.reason) signal_conversion_reversed sig.request_id logged
        else logged)

set_dispute_flag : Bool → World → World
set_dispute_flag flag w =
    put (record w.state { encumbrances = record w.state.encumbrances { dispute_flag = flag } }) w

unfoldable pub handle_dispute_registered : Env → DisputeSignal → World → World
unfolding set_dispute_flag
handle_dispute_registered env sig w =
    if seen sig.request_id w
    then w
    else mark_processed env sig.request_id (
        set_dispute_flag true
          (audit signal_dispute_registered (Payload.dispute sig) sig.request_id w))

unfoldable pub handle_dispute_resolved : Env → DisputeSignal → World → World
unfolding set_dispute_flag
handle_dispute_resolved env sig w =
    if seen sig.request_id w
    then w
    else mark_processed env sig.request_id (
        set_dispute_flag false
          (audit signal_dispute_resolved (Payload.dispute sig) sig.request_id w))
