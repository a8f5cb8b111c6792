-- ===== src/Lifecycle/Completion/Locks.antt =====
-- policy_lifecycle_workflow.go: the lock under handleOperationCompleted and handleNFRCompleted.
use text.Mathlib.TextEquality.{eq_iff}
use revival_integration.Base.{◌≡◌, refl, true, false, Option, none, some, List, String, arith}
use revival_integration.Lifecycle.State.{PendingRequest, FinancialLock}
use revival_integration.Lifecycle.Signal.{OperationCompletedSignal}
use revival_integration.Lifecycle.World.{Env, World}
use revival_integration.Lifecycle.Transition.{do_transition}
use revival_integration.Lifecycle.Pending.{take_pending}
use revival_integration.Lifecycle.Pending.Compaction.{take_pending-remaining, take_pending-matched}
use revival_integration.Lifecycle.Pending.Locks.{
  is_covered, holds_lock, LockIsCovered, is_pending-others,
}
use revival_integration.Lifecycle.Completion.{
  update_encumbrances, release_lock_of, apply_resolution, complete_matched,
  handle_operation_completed, handle_nfr_completed,
}

-- After the slice has lost the requests with the identifier, the lock is covered unless it is held
-- by that identifier.
others_covered :
    (key : String) (lock : Option FinancialLock) (prs : List PendingRequest)
    → is_covered lock prs ≡ true
    → holds_lock key lock ≡ false
    → is_covered lock (take_pending key prs).0 ≡ true
others_covered key none prs h n = refl
others_covered key (some lock) prs h n =
    rw (take_pending-remaining key prs) (rw (is_pending-others key lock.request_id prs n) h)

complete_matched-LockIsCovered :
    (env : Env) (sig : OperationCompletedSignal) (pr : PendingRequest) (w : World)
    → (holds_lock sig.request_id w.state.active_lock ≡ false → LockIsCovered w)
    → LockIsCovered (complete_matched env sig pr w).0
unfolding complete_matched release_lock_of apply_resolution update_encumbrances do_transition
complete_matched-LockIsCovered env sig pr w h = ground arith

-- The lock's own request is found, so its completion is not dropped.
held_is_matched :
    (key : String) (lock : Option FinancialLock) (prs : List PendingRequest)
    → is_covered lock prs ≡ true
    → (take_pending key prs).1 ≡ none
    → holds_lock key lock ≡ false
held_is_matched key none prs h n = refl
held_is_matched key (some lock) prs h n =
    ground (arith, eq_iff lock.request_id key, take_pending-matched key prs)

pub handle_operation_completed-LockIsCovered :
    (env : Env) (sig : OperationCompletedSignal) (w : World)
    → LockIsCovered w
    → LockIsCovered (handle_operation_completed env sig w).0
unfolding handle_operation_completed
handle_operation_completed-LockIsCovered env sig w h =
    let key = sig.request_id in
    let prs = w.state.pending_requests in
    grind (
      arith,
      complete_matched-LockIsCovered,
      others_covered key w.state.active_lock prs h,
      held_is_matched key w.state.active_lock prs h,
    )

pub handle_nfr_completed-LockIsCovered :
    (env : Env) (sig : OperationCompletedSignal) (w : World)
    → holds_lock sig.request_id w.state.active_lock ≡ false
    → LockIsCovered w
    → LockIsCovered (handle_nfr_completed env sig w)
unfolding handle_nfr_completed
handle_nfr_completed-LockIsCovered env sig w n h =
    let key = sig.request_id in
    let prs = w.state.pending_requests in
    ground (arith, others_covered key w.state.active_lock prs h n)
