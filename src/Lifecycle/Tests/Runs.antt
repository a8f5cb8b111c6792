-- ===== src/Lifecycle/Tests/Runs.antt =====
-- Tests of the theorems on whole runs and on the cooling period.
use revival_integration.Base.{
  ◌≡◌, ◌<◌, ◌*◌, ◌+◌, refl, true, false, [], ◌∷◌, pos, contains, lookup, insert, List, Bool, arith,
}
use revival_integration.Stdlib.Duration.{day}
use revival_integration.Domain.Status.{Status, is_terminal}
use revival_integration.Domain.Request.{RequestType}
use revival_integration.Lifecycle.State.{PolicyLifecycleState}
use revival_integration.Lifecycle.Signal.{Signal}
use revival_integration.Lifecycle.World.{World}
use revival_integration.Lifecycle.Transition.{do_transition}
use revival_integration.Lifecycle.Request.{dedup_key}
use revival_integration.Lifecycle.Payments.{handle_loan_balance_updated}
use revival_integration.Lifecycle.Created.{prune_processed_signals}
use revival_integration.Lifecycle.Pending.Locks.{is_covered}
use revival_integration.Lifecycle.Step.{handle_signal}
use revival_integration.Lifecycle.Run.{
  Input, Outcome, CoolingEvent, CoolingOutcome, policy_lifecycle_workflow, handle_terminal_cooling,
  handle_cooling_event, should_continue_as_new, continued_state, after_signal, can_event_threshold,
}
use revival_integration.Lifecycle.Run.Counting.{
  policy_lifecycle_workflow-waiting, continued_run_waits,
}
use revival_integration.Lifecycle.Run.Cooling.{has_reopen, handle_terminal_cooling-reopened}
use revival_integration.Lifecycle.Run.Locks.{final_state, policy_lifecycle_workflow-LockIsCovered}
use revival_integration.Lifecycle.Run.Duplicates.{recent_duplicate_ignored}
use revival_integration.Lifecycle.Tests.{env, in_force, loan_waits, world_of, request}

-- The world in which a run ends.
abbrev final_world : Outcome → World
final_world (Outcome.waiting w) = w
final_world (Outcome.continued _ w) = w
final_world (Outcome.failed w) = w
final_world (Outcome.cooling w) = w

abbrev balance : Input
balance =
    Input.signal
      (Signal.loan_balance_updated (record { request_id = "b-1"; loan_outstanding = pos 500 }))

abbrev waits : World
waits = final_world (policy_lifecycle_workflow env (balance ∷ Input.timer ∷ []) in_force)

policy_lifecycle_workflow-waiting_example :
    (waits.state.event_count ≡ in_force.event_count + 1)
    × (waits.state.event_count < can_event_threshold)
unfolding contains lookup insert policy_lifecycle_workflow handle_signal handle_loan_balance_updated
    should_continue_as_new after_signal prune_processed_signals
policy_lifecycle_workflow-waiting_example =
    policy_lifecycle_workflow-waiting env (balance ∷ Input.timer ∷ []) in_force {w = waits} refl

policy_lifecycle_workflow-LockIsCovered_example :
    let st = final_state (policy_lifecycle_workflow env (balance ∷ Input.timer ∷ []) loan_waits) in
    is_covered st.active_lock st.pending_requests ≡ true
policy_lifecycle_workflow-LockIsCovered_example =
    policy_lifecycle_workflow-LockIsCovered env (balance ∷ Input.timer ∷ []) loan_waits refl refl

-- The event counter has reached the threshold.
abbrev counted : PolicyLifecycleState
counted = record loan_waits { event_count = 40000 }

abbrev continued_world : World
continued_world = final_world (policy_lifecycle_workflow env (balance ∷ []) counted)

abbrev continued_from : PolicyLifecycleState
continued_from = final_state (policy_lifecycle_workflow env (balance ∷ []) counted)

continued_run_waits_example :
    (w' : World) × (policy_lifecycle_workflow env [] continued_from ≡ Outcome.waiting w')
    × (w'.state
        ≡ record continued_world.state { last_can_time = w'.state.last_can_time; event_count = 0 })
unfolding policy_lifecycle_workflow should_continue_as_new continued_state
continued_run_waits_example =
    continued_run_waits env env (balance ∷ []) counted {st' = continued_from} {w = continued_world}
      refl (omega arith) (omega arith) (omega arith)

recent_duplicate_ignored_example :
    handle_signal env
      (Signal.surrender_request (request "old" RequestType.surrender))
      (after_signal env (world_of in_force))
    ≡ (after_signal env (world_of in_force), false)
unfolding lookup dedup_key
recent_duplicate_ignored_example =
    recent_duplicate_ignored env (Signal.surrender_request (request "old" RequestType.surrender))
      (world_of in_force) "old" (736990 * day) refl refl (omega arith)

-- A voided policy is reopened.
abbrev void_world : World
void_world =
    world_of (record in_force { current_status = Status.void; previous_status = Status.active })

abbrev reopening : List (CoolingEvent × Bool)
reopening =
    (
      CoolingEvent.loan_balance_updated (record { request_id = "b-2"; loan_outstanding = pos 0 }),
      false,
    )
    ∷ (
      CoolingEvent.reopen_request
          (record { request_id = "r-1"; reopen_reason = "appeal"; authorized_by = pos 12 }),
      false,
    )
    ∷ []

abbrev cooled : CoolingOutcome → World
cooled (CoolingOutcome.still_cooling w) = w
cooled (CoolingOutcome.finished w) = w
cooled (CoolingOutcome.reopened _ w) = w

abbrev reopened_world : World
reopened_world = cooled (handle_terminal_cooling env reopening void_world)

handle_terminal_cooling-reopened_example :
    (is_terminal reopened_world.state.current_status ≡ false) × (has_reopen reopening ≡ true)
unfolding contains lookup insert handle_terminal_cooling handle_cooling_event is_terminal
    do_transition
handle_terminal_cooling-reopened_example =
    handle_terminal_cooling-reopened env reopening void_world {st = reopened_world.state}
      {w' = reopened_world} refl refl
