-- ===== src/Lifecycle/Request.antt =====
-- policy_lifecycle_workflow.go: handleFinancialRequest, handleDeathNotification, handleNFRRequest.
pub mod Locks
pub mod Routed
pub mod Suspended
use text.Mathlib.Text.{◌==◌ as str_eq}
use revival_integration.Base.{
  ◌+◌, not, Option, none, some, List, [], ◌∷◌, ◌++◌, String, ◌<>◌, pos, if◌then◌else◌, length,
}
use revival_integration.Stdlib.Decimal.{format_int}
use revival_integration.Stdlib.Duration.{Time}
use revival_integration.Domain.Status.{Status, status_eq}
use revival_integration.Domain.Request.{
  RequestCategory, RequestStatus, request_type_text, downstream_task_queue_for_type,
}
use revival_integration.Lifecycle.State.{PendingRequest, FinancialLock}
use revival_integration.Lifecycle.Signal.{PolicyRequestSignal, Payload, RawMessage}
use revival_integration.Lifecycle.Command.{
  Command, SignalStatus, ServiceRequestUpdate, PolicyRefreshedState,
}
use revival_integration.Lifecycle.World.{
  Env, World, now, emit, put, seen, mark_processed, log_signal,
}
use revival_integration.Lifecycle.Transition.{do_transition}
use revival_integration.Lifecycle.Gate.{
  is_state_eligible, requires_financial_lock, pre_route_status, lock_reason,
}
use revival_integration.Lifecycle.Timeouts.{routing_timeout_from_config}
use revival_integration.Lifecycle.Routing.{
  request_type_to_signal_name, downstream_workflow_type_for_request, downstream_child_id_prefix,
  signal_nfr_request,
}
pub use revival_integration.Lifecycle.Dispatch.{blank_update, child_id}
unfoldable pub use revival_integration.Lifecycle.Dispatch.{
  dedup_key, refresh_state, reject_at_gate, dispatch_child,
}

-- A financial request to a suspended policy: logged and recorded, and nothing else.
unfoldable pub reject_suspended : String → PolicyRequestSignal → World → World
reject_suspended key sig w =
    emit
      (Command.record_rejected_request (record {
        policy_id = w.state.policy_db_id;
        signal_channel = request_type_text sig.request_type;
        service_request_id = sig.service_request_id;
        reason = "policy is SUSPENDED — request blocked [BR-PM-110]";
      }))
      (log_signal (request_type_to_signal_name sig.request_type) (Payload.request sig) key
        SignalStatus.rejected w.state.current_status w)

-- The transition that some request types make before they are routed.
unfoldable pub pre_route : Env → String → PolicyRequestSignal → World → World
pre_route env key sig w =
    let target = pre_route_status sig.request_type in
    if status_eq target Status.unset
    then w
    else do_transition env w.state.current_status target
        (request_type_text sig.request_type <> " request received")
        (request_type_text sig.request_type) key w

-- The lock in memory and in the database.
unfoldable pub acquire_lock : Env → String → PolicyRequestSignal → Time → World → World
acquire_lock env key sig timeout w =
    if not (requires_financial_lock sig.request_type)
    then w
    else let lock : FinancialLock = record {
      request_id = key;
      request_type = sig.request_type;
      locked_at = now env w;
      timeout_at = timeout;
    } in
      emit
        (Command.acquire_financial_lock (record {
          policy_id = w.state.policy_db_id;
          service_request_id = sig.service_request_id;
          request_type = sig.request_type;
          locked_at = now env w;
          timeout_at = timeout;
        }))
        (put (record w.state { active_lock = some lock }) w)

abbrev timeout_of : Env → PolicyRequestSignal → World → Time
timeout_of env sig w =
    now env w + routing_timeout_from_config w.state.cached_config sig.request_type

-- All checks have passed.
unfoldable pub route_financial : Env → String → PolicyRequestSignal → World → World
route_financial env key sig w =
    let logged =
      log_signal (request_type_to_signal_name sig.request_type) (Payload.request sig) key
        SignalStatus.processed w.state.current_status w in
    let moved = pre_route env key sig logged in
    let timeout = timeout_of env sig moved in
    dispatch_child env key sig sig.request_category timeout (acquire_lock env key sig timeout moved)

-- The checks, in the order of the source: suspension, the state gate, the lock.
unfoldable pub decide_financial : Env → String → PolicyRequestSignal → World → World
decide_financial env key sig w =
    let (eligible, reason) =
      is_state_eligible sig.request_type w.state.current_status w.state.encumbrances in
    let reject = reject_at_gate env (request_type_to_signal_name sig.request_type) key sig in
    if status_eq w.state.current_status Status.suspended
    then reject_suspended key sig w
    else if not eligible
    then reject reason w
    else if not (requires_financial_lock sig.request_type)
    then route_financial env key sig w
    else elim w.state.active_lock [
      | none ↦ route_financial env key sig w
      | some lock ↦ reject (lock_reason lock.request_type) w
    ]

unfoldable pub handle_financial_request : Env → PolicyRequestSignal → World → World
handle_financial_request env sig w =
    if seen (dedup_key sig) w
    then w
    else decide_financial env (dedup_key sig) sig (refresh_state env w)

-- The child workflow of the first pending request that has the lock's identifier.
child_of : String → List PendingRequest → String
child_of key [] = ""
child_of key (pr ∷ prs) =
    if str_eq pr.request_id key then pr.downstream_workflow else child_of key prs

-- Preemption: the lock's child workflow is cancelled and the lock is released.
preempt : Option FinancialLock → World → World
unfolding child_of
preempt none w = w
preempt (some lock) w =
    let child = child_of lock.request_id w.state.pending_requests in
    let cancelled =
      if str_eq child "" then w else emit (Command.cancel_downstream_workflow child) w in
    emit (Command.release_financial_lock w.state.policy_db_id)
      (put (record w.state { active_lock = none }) cancelled)

-- The lock is given up, and nothing stays pending.
unfoldable pub give_way : World → World
unfolding preempt
give_way w =
    let free = preempt w.state.active_lock w in
    put (record free.state { pending_requests = [] }) free

unfoldable pub handle_death_notification : Env → PolicyRequestSignal → World → World
handle_death_notification env sig w =
    if seen (dedup_key sig) w then w else handle_financial_request env sig (give_way w)

unfoldable pub handle_nfr_request : Env → PolicyRequestSignal → World → World
handle_nfr_request env sig w =
    let key = dedup_key sig in
    let fresh = refresh_state env w in
    let (eligible, reason) =
      is_state_eligible sig.request_type fresh.state.current_status fresh.state.encumbrances in
    if seen key w
    then w
    else if not eligible
    then reject_at_gate env signal_nfr_request key sig reason fresh
    else let logged =
        log_signal signal_nfr_request (Payload.request sig) key SignalStatus.processed
          fresh.state.current_status fresh in
      dispatch_child env key sig RequestCategory.non_financial (timeout_of env sig logged) logged
