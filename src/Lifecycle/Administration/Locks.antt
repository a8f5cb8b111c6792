-- ===== src/Lifecycle/Administration/Locks.antt =====
-- policy_lifecycle_workflow.go: the lock under handleAdminVoid and handleWithdrawal.
use text.Mathlib.Text.{◌==◌ as str_eq}
use text.Mathlib.TextEquality.{eq_iff}
use revival_integration.Base.{
  ◌≡◌, refl, true, false, Option, none, some, List, [], ◌∷◌, String, arith,
}
use revival_integration.Lifecycle.State.{PendingRequest, FinancialLock}
use revival_integration.Lifecycle.Signal.{AdminVoidSignal, WithdrawalRequestSignal}
use revival_integration.Lifecycle.World.{Env, World}
use revival_integration.Lifecycle.Transition.{do_transition}
use revival_integration.Lifecycle.Completion.{release_lock_of}
use revival_integration.Lifecycle.Pending.Compaction.{is_pending}
use revival_integration.Lifecycle.Pending.Locks.{is_covered, holds_lock, LockIsCovered}
use revival_integration.Lifecycle.Administration.{
  handle_admin_void, handle_withdrawal, find_pending,
}

-- An administrative void leaves no lock and nothing pending.
pub handle_admin_void-LockIsCovered :
    (env : Env) (sig : AdminVoidSignal) (w : World)
    → LockIsCovered w
    → LockIsCovered (handle_admin_void env sig w).0
unfolding handle_admin_void do_transition
handle_admin_void-LockIsCovered env sig w h = ground arith

-- A withdrawal takes out one request; any other identifier is as pending as before.
abbrev rest_of :
    Option (PendingRequest × List PendingRequest) → List PendingRequest → List PendingRequest
rest_of none prs = prs
rest_of (some (_, rest)) prs = rest

find_pending-others :
    (key k : String) (prs : List PendingRequest)
    → str_eq k key ≡ false
    → is_pending k (rest_of (find_pending key prs) prs) ≡ is_pending k prs
unfolding find_pending
find_pending-others key k [] h = ground arith
find_pending-others key k (p ∷ prs) h = ground (
  arith,
  eq_iff p.request_id key,
  eq_iff p.request_id k,
  eq_iff k key,
  find_pending-others key k prs h,
)

rest-is_covered :
    (key : String) (lock : Option FinancialLock) (prs : List PendingRequest)
    → is_covered lock prs ≡ true
    → holds_lock key lock ≡ false
    → is_covered lock (rest_of (find_pending key prs) prs) ≡ true
rest-is_covered key none prs h n = refl
rest-is_covered key (some lock) prs h n = rw (find_pending-others key lock.request_id prs n) h

pub handle_withdrawal-LockIsCovered :
    (env : Env) (sig : WithdrawalRequestSignal) (w : World)
    → LockIsCovered w
    → LockIsCovered (handle_withdrawal env sig w)
unfolding handle_withdrawal release_lock_of do_transition
handle_withdrawal-LockIsCovered env sig w h =
    ground
      (arith, rest-is_covered sig.target_request_id w.state.active_lock w.state.pending_requests h)
