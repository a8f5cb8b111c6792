-- ===== src/Lifecycle/Tests/Handlers.antt =====
-- Tests of the theorems on single handlers.
use revival_integration.Base.{◌≡◌, ◌*◌, refl, true, false, [], ◌∷◌, pos, contains, lookup, insert}
use revival_integration.Stdlib.Duration.{day}
use revival_integration.Domain.Status.{Status, status_eq}
use revival_integration.Domain.Request.{RequestType}
use revival_integration.Lifecycle.Signal.{AmlFlagRaisedSignal, AmlFlagClearedSignal}
use revival_integration.Lifecycle.World.{World}
use revival_integration.Lifecycle.Transition.{do_transition}
use revival_integration.Lifecycle.Gate.{
  is_state_eligible, is_request_eligible, requires_financial_lock,
}
use revival_integration.Lifecycle.Gate.Matrix.{permitted, is_state_eligible-permitted}
use revival_integration.Lifecycle.Request.{
  dedup_key, refresh_state, give_way, handle_financial_request, handle_death_notification,
}
use revival_integration.Lifecycle.Request.Routed.{
  IsRouted, IsRefused, handle_financial_request-IsRouted, handle_financial_request-IsRefused,
}
use revival_integration.Lifecycle.Request.Suspended.{
  IsTurnedAway, handle_death_notification-suspended,
}
use revival_integration.Lifecycle.Pending.{take_pending}
use revival_integration.Lifecycle.Pending.Compaction.{others, take_pending-remaining}
use revival_integration.Lifecycle.Completion.{handle_operation_completed}
use revival_integration.Lifecycle.Completion.Registry.{
  completed_ids, handle_operation_completed-completed_ids,
}
use revival_integration.Lifecycle.Compliance.{handle_aml_flag_raised, handle_aml_flag_cleared}
use revival_integration.Lifecycle.Compliance.Suspension.{aml_flag_round_trip}
use revival_integration.Lifecycle.Tests.{
  env, in_force, loan_waits, queue, pending, world_of, request, completion,
}

abbrev active_world : World
active_world = world_of in_force

abbrev waiting_world : World
waiting_world = world_of loan_waits

is_state_eligible-permitted_example :
    (is_state_eligible RequestType.loan Status.active in_force.encumbrances).0
    ≡ permitted Status.active RequestType.loan in_force.encumbrances
is_state_eligible-permitted_example =
    is_state_eligible-permitted RequestType.loan Status.active in_force.encumbrances

handle_financial_request-IsRouted_example :
    IsRouted "s-1"
      (request "s-1" RequestType.surrender)
      (refresh_state env active_world)
      (handle_financial_request env (request "s-1" RequestType.surrender) active_world)
unfolding contains lookup dedup_key refresh_state status_eq is_request_eligible is_state_eligible
handle_financial_request-IsRouted_example =
    handle_financial_request-IsRouted env (request "s-1" RequestType.surrender) active_world refl
      refl refl

handle_financial_request-IsRefused_example :
    IsRefused "s-1"
      (refresh_state env waiting_world)
      (handle_financial_request env (request "s-1" RequestType.surrender) waiting_world)
unfolding contains lookup dedup_key refresh_state status_eq is_request_eligible is_state_eligible
    requires_financial_lock
handle_financial_request-IsRefused_example =
    handle_financial_request-IsRefused env (request "s-1" RequestType.surrender) waiting_world refl
      refl refl

abbrev suspended_world : World
suspended_world = world_of (record loan_waits { current_status = Status.suspended })

handle_death_notification-suspended_example :
    ((is_state_eligible RequestType.death_claim Status.suspended loan_waits.encumbrances).0 ≡ true)
    × IsTurnedAway
        (request "d-1" RequestType.death_claim)
        (handle_death_notification env (request "d-1" RequestType.death_claim) suspended_world)
unfolding contains lookup dedup_key refresh_state give_way
handle_death_notification-suspended_example =
    handle_death_notification-suspended env (request "d-1" RequestType.death_claim) suspended_world
      refl refl

take_pending-remaining_example : (take_pending "loan-1" queue).0 ≡ others "loan-1" queue
take_pending-remaining_example = take_pending-remaining "loan-1" queue

-- The loan is completed, and the change of address is marked as completed.
handle_operation_completed-completed_ids_example :
    completed_ids
      (handle_operation_completed env (completion "loan-1" RequestType.loan) waiting_world).0.trace
    ≡ pos 42 ∷ []
unfolding contains lookup
handle_operation_completed-completed_ids_example =
    handle_operation_completed-completed_ids env (completion "loan-1" RequestType.loan)
      waiting_world [] (pending "address-1" (pos 42) RequestType.address_change ∷ [])
      (pending "loan-1" (pos 41) RequestType.loan) refl refl refl refl refl

abbrev raised : AmlFlagRaisedSignal
raised = record { request_id = "aml-1"; reason = "report"; authority_ref = "FIU-9" }

abbrev cleared : AmlFlagClearedSignal
cleared = record { request_id = "aml-3"; cleared_by = "12"; cleared_at = 737050 * day }

aml_flag_round_trip_example :
    let flagged = handle_aml_flag_raised env raised active_world in
    let w' = handle_aml_flag_cleared env cleared flagged in
    (flagged.state.current_status ≡ Status.suspended)
    × (flagged.state.encumbrances.aml_hold ≡ true)
    × (w'.state.current_status ≡ Status.active)
    × (w'.state.encumbrances.aml_hold ≡ false)
    × (w'.state.previous_status_before_suspension ≡ Status.unset)
    × (w'.state.previous_status ≡ Status.suspended)
unfolding contains lookup insert handle_aml_flag_raised status_eq do_transition
aml_flag_round_trip_example =
    aml_flag_round_trip env raised cleared active_world refl refl (λ e. cc) (λ e. cc)
