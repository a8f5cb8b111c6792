-- ===== src/Lifecycle/Completion/Orphan.antt =====
-- policy_lifecycle_workflow.go: handleNFRCompleted for the request that holds the financial lock.
use text.Mathlib.TextEquality.{eq_iff}
use revival_integration.Base.{◌≡◌, refl, true, false, List, [], ◌∷◌, String, arith}
use revival_integration.Lifecycle.State.{PendingRequest}
use revival_integration.Lifecycle.Signal.{OperationCompletedSignal}
use revival_integration.Lifecycle.World.{Env, World}
use revival_integration.Lifecycle.Pending.{take_pending}
use revival_integration.Lifecycle.Pending.Compaction.{is_pending, others, take_pending-remaining}
use revival_integration.Lifecycle.Pending.Locks.{is_covered, holds_lock}
use revival_integration.Lifecycle.Completion.{handle_nfr_completed}

is_pending-others_self :
    (key : String) (prs : List PendingRequest) → is_pending key (others key prs) ≡ false
is_pending-others_self key [] = refl
is_pending-others_self key (p ∷ prs) = ground (arith, is_pending-others_self key prs)

taken_is_not_pending :
    (key : String) (prs : List PendingRequest) → is_pending key (take_pending key prs).0 ≡ false
taken_is_not_pending key prs = rw (take_pending-remaining key prs) (is_pending-others_self key prs)

-- An nfr-completed for the request that holds the lock drops the request and keeps the lock, which
-- no pending request covers any more.
pub nfr_completed_orphans_lock :
    (env : Env) (sig : OperationCompletedSignal) (w : World)
    → holds_lock sig.request_id w.state.active_lock ≡ true
    → let st = (handle_nfr_completed env sig w).state in
      (st.active_lock ≡ w.state.active_lock)
      × (is_covered st.active_lock st.pending_requests ≡ false)
unfolding handle_nfr_completed
nfr_completed_orphans_lock env sig w h =
    let n = taken_is_not_pending sig.request_id w.state.pending_requests in
    (ground arith, grind (arith, eq_iff))
