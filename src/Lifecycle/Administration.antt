-- ===== src/Lifecycle/Administration.antt =====
-- policy_lifecycle_workflow.go: handleCustomerIDMerge, handleAdminVoid, handleVoluntaryPaidUp,
-- handleWithdrawal.
pub mod Frame
pub mod Locks
pub mod Withdrawal
use text.Mathlib.Text.{◌==◌ as str_eq}
use revival_integration.Base.{
  Bool, true, false, not, ◌&&◌, Option, none, some, List, [], ◌∷◌, String, ◌<>◌, ℤ, pos, negsuc,
  ltb, if◌then◌else◌,
}
use revival_integration.Stdlib.Decimal.{format_int, format_hundredths}
use revival_integration.Domain.Status.{Status, status_eq}
use revival_integration.Domain.Request.{RequestType}
use revival_integration.Lifecycle.State.{PendingRequest}
use revival_integration.Lifecycle.Signal.{
  CustomerIdMergeSignal, AdminVoidSignal, VoluntaryPaidUpSignal, WithdrawalRequestSignal, Payload,
}
use revival_integration.Lifecycle.Command.{Command, MetadataValue}
use revival_integration.Lifecycle.World.{
  Env, World, emit, put, seen, mark_processed, audit, update_metadata,
}
use revival_integration.Lifecycle.Transition.{do_transition}
use revival_integration.Lifecycle.Gate.{is_state_eligible, pre_route_status}
use revival_integration.Lifecycle.Completion.{release_lock_of}
use revival_integration.Lifecycle.Routing.{
  signal_customer_id_merge, signal_admin_void, signal_voluntary_paidup_request,
  signal_withdrawal_request,
}

unfoldable pub handle_customer_id_merge : Env → CustomerIdMergeSignal → World → World
handle_customer_id_merge env sig w =
    let logged = audit signal_customer_id_merge (Payload.customer_id_merge sig) sig.request_id w in
    let merged =
      put
        (record logged.state {
          metadata = record logged.state.metadata { customer_id = sig.new_customer_id };
        })
        logged in
    if seen sig.request_id w
    then w
    else mark_processed env sig.request_id
        (update_metadata (("customer_id", MetadataValue.number sig.new_customer_id) ∷ []) merged)

-- `for _, pr := range state.PendingRequests`: each child workflow is cancelled.
unfoldable pub cancel_all : List PendingRequest → World → World
cancel_all [] w = w
cancel_all (pr ∷ prs) w =
    cancel_all prs (emit (Command.cancel_downstream_workflow pr.downstream_workflow) w)

release_any_lock : World → World
release_any_lock w = elim w.state.active_lock [
  | none ↦ w
  | some _ ↦
      put (record w.state { active_lock = none })
        (emit (Command.release_financial_lock w.state.policy_db_id) w)
]

unfoldable pub handle_admin_void : Env → AdminVoidSignal → World → World × Bool
unfolding release_any_lock
handle_admin_void env sig w =
    let logged = audit signal_admin_void (Payload.admin_void sig) sig.request_id w in
    let cancelled = cancel_all logged.state.pending_requests logged in
    let free =
      release_any_lock (put (record cancelled.state { pending_requests = [] }) cancelled) in
    if seen sig.request_id w then (w, false) else (
      mark_processed env sig.request_id (
          do_transition env free.state.current_status Status.void
            ("admin void by " <> (format_int sig.authorized_by <> (": " <> sig.reason)))
            signal_admin_void sig.request_id free),
      true,
    )

-- `value < 10000.0`, in hundredths.
abbrev is_below_minimum : ℤ → Bool
is_below_minimum (pos n) = ltb n 1000000
is_below_minimum (negsuc _) = true

unfoldable pub handle_voluntary_paid_up : Env → VoluntaryPaidUpSignal → World → World × Bool
handle_voluntary_paid_up env sig w =
    let logged =
      audit signal_voluntary_paidup_request (Payload.voluntary_paid_up sig) sig.request_id w in
    let gate =
      is_state_eligible RequestType.paid_up logged.state.current_status logged.state.encumbrances in
    let small = is_below_minimum sig.paid_up_value in
    if seen sig.request_id w
    then (w, false)
    else if not gate.0
    then (mark_processed env sig.request_id logged, false)
    else (
      mark_processed env sig.request_id (
          do_transition env logged.state.current_status
            (if small then Status.void else Status.paid_up)
            ("voluntary paid-up; value=" <> format_hundredths sig.paid_up_value)
            signal_voluntary_paidup_request sig.request_id logged),
      small,
    )

-- The first pending request with the identifier, and the list without it.
pub find_pending : String → List PendingRequest → Option (PendingRequest × List PendingRequest)
find_pending key [] = none
find_pending key (pr ∷ prs) =
    let rest = find_pending key prs in
    if str_eq pr.request_id key
    then some (pr, prs)
    else elim rest [ none ↦ none | some (found, others) ↦ some (found, pr ∷ others) ]

-- The pre-route status is taken back, if the policy is still in it.
revert_pre_route : Env → WithdrawalRequestSignal → PendingRequest → World → World
revert_pre_route env sig pr w =
    let target = pre_route_status pr.request_type in
    if not (status_eq target Status.unset) && status_eq w.state.current_status target
    then do_transition env target w.state.previous_status "request withdrawn"
        signal_withdrawal_request sig.request_id w
    else w

withdraw_found :
    Env → WithdrawalRequestSignal → PendingRequest → List PendingRequest → World → World
unfolding revert_pre_route
withdraw_found env sig pr others w =
    let cancelled = emit (Command.cancel_downstream_workflow pr.downstream_workflow) w in
    let reverted = revert_pre_route env sig pr cancelled in
    release_lock_of sig.target_request_id
      (put (record reverted.state { pending_requests = others }) reverted)

unfoldable pub handle_withdrawal : Env → WithdrawalRequestSignal → World → World
unfolding withdraw_found find_pending
handle_withdrawal env sig w =
    let logged = audit signal_withdrawal_request (Payload.withdrawal sig) sig.request_id w in
    if seen sig.request_id w
    then w
    else mark_processed env sig.request_id
        (elim (find_pending sig.target_request_id logged.state.pending_requests) [
          | none ↦ logged
          | some (pr, others) ↦ withdraw_found env sig pr others logged
        ])
