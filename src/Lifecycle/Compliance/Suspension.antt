-- ===== src/Lifecycle/Compliance/Suspension.antt =====
-- policy_lifecycle_workflow.go: AML flags that are raised and cleared.
use revival_integration.Base.{◌≡◌, ◌≢◌, true, false, arith}
use revival_integration.Domain.Status.{Status, status_eq}
use revival_integration.Lifecycle.Signal.{AmlFlagRaisedSignal, AmlFlagClearedSignal}
use revival_integration.Lifecycle.World.{Env, World, seen}
use revival_integration.Lifecycle.Transition.{do_transition}
use revival_integration.Lifecycle.Compliance.{handle_aml_flag_raised, handle_aml_flag_cleared}

module _ (env : Env) (raised : AmlFlagRaisedSignal) (cleared : AmlFlagClearedSignal) (w : World)
    (new : seen raised.request_id w ≡ false)
    (new' : seen cleared.request_id (handle_aml_flag_raised env raised w) ≡ false)
    (written : w.state.current_status ≢ Status.unset)
    (awake : w.state.current_status ≢ Status.suspended) where
  -- Where the policy has a status and is not SUSPENDED, and neither signal is remembered, raising an
  -- AML flag suspends it, with the hold, and clearing the flag brings it back to its status, without
  -- the hold and with nothing saved; the previous status is SUSPENDED afterwards.
  pub aml_flag_round_trip :
      let flagged = handle_aml_flag_raised env raised w in
      let w' = handle_aml_flag_cleared env cleared flagged in
      (flagged.state.current_status ≡ Status.suspended)
      × (flagged.state.encumbrances.aml_hold ≡ true)
      × (w'.state.current_status ≡ w.state.current_status)
      × (w'.state.encumbrances.aml_hold ≡ false)
      × (w'.state.previous_status_before_suspension ≡ Status.unset)
      × (w'.state.previous_status ≡ Status.suspended)
  unfolding handle_aml_flag_raised handle_aml_flag_cleared do_transition status_eq
  aml_flag_round_trip =
      (ground arith, ground arith, ground arith, ground arith, ground arith, ground arith)

module _ (env : Env) (first second : AmlFlagRaisedSignal) (cleared : AmlFlagClearedSignal)
    (w : World) (new : seen first.request_id w ≡ false)
    (new' : seen second.request_id (handle_aml_flag_raised env first w) ≡ false)
    (new'' : seen cleared.request_id
        (handle_aml_flag_raised env second (handle_aml_flag_raised env first w))
      ≡ false) where
  -- After a second flag is raised, clearing takes the hold away and leaves the policy SUSPENDED,
  -- whatever its status was before the first flag.
  pub second_flag_stays_suspended :
      let w' =
        handle_aml_flag_cleared env cleared
          (handle_aml_flag_raised env second (handle_aml_flag_raised env first w)) in
      (w'.state.current_status ≡ Status.suspended) × (w'.state.encumbrances.aml_hold ≡ false)
  unfolding handle_aml_flag_raised handle_aml_flag_cleared do_transition status_eq
  second_flag_stays_suspended = (ground arith, ground arith)
