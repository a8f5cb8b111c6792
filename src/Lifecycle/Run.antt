-- ===== src/Lifecycle/Run.antt =====
-- policy_lifecycle_workflow.go: the main loop of PolicyLifecycleWorkflow with Continue-As-New, and
-- handleTerminalCooling. The signals and the wake-ups of timers arrive as a list, in the order in
-- which the workflow receives them.
pub mod Exits
pub mod Counting
pub mod Cooling
pub mod Locks
pub mod Duplicates
pub mod Unset
use revival_integration.Base.{
  ℕ, ◌+◌, ◌-◌, ◌*◌, Bool, true, false, not, ◌&&◌, ◌||◌, List, [], ◌∷◌, ◌<>◌, leb, ltb, ◌==◌,
  if◌then◌else◌, length,
}
use revival_integration.Stdlib.Decimal.{format_int}
use revival_integration.Stdlib.Duration.{day}
use revival_integration.Domain.Status.{is_terminal}
use revival_integration.Lifecycle.State.{PolicyLifecycleState}
use revival_integration.Lifecycle.Signal.{
  Signal, PremiumPaidSignal, LoanBalanceUpdatedSignal, ReopenRequestSignal,
}
use revival_integration.Lifecycle.Command.{Command, MetadataValue}
use revival_integration.Lifecycle.World.{
  Env, World, FlcTimer, now, emit, put, seen, mark_processed, update_metadata,
}
use revival_integration.Lifecycle.Transition.{do_transition, next_int64}
use revival_integration.Lifecycle.Timeouts.{cooling_duration_from_config}
use revival_integration.Lifecycle.Created.{fire_flc_timer, prune_processed_signals}
use revival_integration.Lifecycle.Step.{handle_signal}

abbrev pub can_event_threshold : ℕ
can_event_threshold = 40000

abbrev pub can_history_size_bytes : ℕ
can_history_size_bytes = 50 * 1024 * 1024

abbrev pub can_time_threshold : ℕ
can_time_threshold = 30 * day

unfoldable pub should_continue_as_new : Env → World → Bool
should_continue_as_new env w =
    leb can_event_threshold w.state.event_count
    || leb can_event_threshold (env.history_length (length w.trace))
    || leb can_history_size_bytes (env.history_size (length w.trace))
    || leb can_time_threshold (now env w - w.state.last_can_time)

-- The state that the next run starts from.
unfoldable pub continued_state : Env → World → PolicyLifecycleState
continued_state env w = record w.state { last_can_time = now env w; event_count = 0 }

-- What arrives at the workflow.
pub data Input : Type 0 where
  signal : Signal → Input
  timer : Input

-- Where the main loop stands when the inputs are used up, or how it ended.
pub data Outcome : Type 0 where
  waiting : World → Outcome
  continued : PolicyLifecycleState → World → Outcome
  failed : World → Outcome
  cooling : World → Outcome

-- The first goroutine that waits wakes up.
unfoldable pub wake : Env → World → World
wake env w = elim w.timers [ [] ↦ w | t ∷ ts ↦ fire_flc_timer env t (record w { timers = ts }) ]

-- What follows `sel.Select` in one round: the counter, the pruning, the search attribute.
unfoldable pub after_signal : Env → World → World
after_signal env w =
    let pruned =
      prune_processed_signals env
        (put (record w.state { event_count = next_int64 w.state.event_count }) w) in
    emit (Command.upsert_status pruned.state.current_status) pruned

-- Blocked in `sel.Select`.
await : Env → List Input → World → Outcome
await env [] w = Outcome.waiting w
await env (Input.timer ∷ inputs) w = await env inputs (wake env w)
await env (Input.signal s ∷ inputs) w =
    let (handled, reached_terminal) = handle_signal env s w in
    let next = after_signal env handled in
    let again = await env inputs next in
    if env.upsert_fails (length next.trace)
    then Outcome.failed next
    else if reached_terminal
    then Outcome.cooling next
    else if should_continue_as_new env next
    then Outcome.continued (continued_state env next) next
    else again

-- The set-up at the start of a run. A free-look timer that was lost with the last run is started
-- again.
start : Env → PolicyLifecycleState → World
start env state =
    let w : World = record { state = state; trace = []; timers = [] } in
    let dated =
      if state.last_can_time == 0 then record state { last_can_time = now env w } else state in
    let timer : FlcTimer = record {
      due = state.flc_expiry_at;
      reason = "FLC period expired without cancellation (respawned after CAN)";
    } in
    record w {
      state = dated;
      timers =
          if not (state.flc_expiry_at == 0) && ltb (now env w) state.flc_expiry_at
          then timer ∷ []
          else [];
    }

unfoldable pub policy_lifecycle_workflow : Env → List Input → PolicyLifecycleState → Outcome
unfolding await start
policy_lifecycle_workflow env inputs state =
    let w = start env state in
    let blocked = await env inputs w in
    if should_continue_as_new env w then Outcome.continued (continued_state env w) w else blocked

-- What arrives during the cooling period.
pub data CoolingEvent : Type 0 where
  expired : CoolingEvent
  premium_paid : PremiumPaidSignal → CoolingEvent
  loan_balance_updated : LoanBalanceUpdatedSignal → CoolingEvent
  reopen_request : ReopenRequestSignal → CoolingEvent

abbrev is_expired : CoolingEvent → Bool
is_expired CoolingEvent.expired = true
is_expired _ = false

unfoldable pub handle_cooling_event : Env → CoolingEvent → World → World
handle_cooling_event env CoolingEvent.expired w =
    emit (Command.mark_workflow_completed w.state.policy_db_id w.state.current_status) w
handle_cooling_event env (CoolingEvent.premium_paid sig) w =
    emit
      (Command.trigger_premium_refund (record {
        policy_id = w.state.policy_db_id;
        policy_number = w.state.policy_number;
        amount = sig.premium_amount;
        reason = "late premium received during terminal cooling period";
        request_id = sig.request_id;
      }))
      w
handle_cooling_event env (CoolingEvent.loan_balance_updated sig) w =
    update_metadata (("loan_outstanding", MetadataValue.number sig.loan_outstanding) ∷ []) (
      put
        (record w.state {
          metadata = record w.state.metadata { loan_outstanding = sig.loan_outstanding };
        })
        w)
handle_cooling_event env (CoolingEvent.reopen_request sig) w =
    if seen sig.request_id w
    then w
    else mark_processed env sig.request_id (
        do_transition env w.state.current_status w.state.previous_status
          ("policy reopened: "
            <> (sig.reopen_reason <> (" (authorized by " <> (format_int sig.authorized_by <> ")"))))
          "reopen-request" sig.request_id w)

pub data CoolingOutcome : Type 0 where
  still_cooling : World → CoolingOutcome
  finished : World → CoolingOutcome
  reopened : PolicyLifecycleState → World → CoolingOutcome

-- The loop. Each event comes with `coolingTimer.IsReady()` as it reads after the event.
cool : Env → List (CoolingEvent × Bool) → World → CoolingOutcome
cool env [] w = CoolingOutcome.still_cooling w
cool env ((event, ready) ∷ events) w =
    let next = handle_cooling_event env event w in
    let again = cool env events next in
    if is_expired event || ready
    then CoolingOutcome.finished next
    else if not (is_terminal next.state.current_status)
    then CoolingOutcome.reopened next.state next
    else again

unfoldable pub handle_terminal_cooling : Env → List (CoolingEvent × Bool) → World → CoolingOutcome
unfolding cool
handle_terminal_cooling env events w =
    let cooling = cooling_duration_from_config w.state.cached_config w.state.current_status in
    cool env events (
      emit
        (Command.persist_terminal_state (record {
          policy_id = w.state.policy_db_id;
          policy_number = w.state.policy_number;
          final_status = w.state.current_status;
          terminal_at = now env w;
          cooling_expiry = now env w + cooling;
          final_snapshot = w.state;
        }))
        w)
