-- ===== src/Lifecycle/Pending/Locks.antt =====
-- policy_lifecycle_workflow.go: the lock and the pending request that holds it.
use text.Mathlib.Text.{◌==◌ as str_eq}
use text.Mathlib.TextEquality.{eq_iff}
use revival_integration.Base.{
  ◌≡◌, refl, Bool, true, false, ◌||◌, Option, none, some, List, [], ◌∷◌, ◌++◌, String, arith,
}
use revival_integration.Lifecycle.State.{PendingRequest, FinancialLock}
use revival_integration.Lifecycle.World.{World}
use revival_integration.Lifecycle.Pending.Compaction.{is_pending, others}

-- Where the lock is held, a pending request has the lock's identifier.
abbrev pub is_covered : Option FinancialLock → List PendingRequest → Bool
is_covered none prs = true
is_covered (some lock) prs = is_pending lock.request_id prs

abbrev pub LockIsCovered : World → Type 0
LockIsCovered w = is_covered w.state.active_lock w.state.pending_requests ≡ true

-- Whether the lock is held by the request with this identifier.
abbrev pub holds_lock : String → Option FinancialLock → Bool
holds_lock key none = false
holds_lock key (some lock) = str_eq lock.request_id key

pub is_pending-snoc :
    (key : String) (prs : List PendingRequest) (pr : PendingRequest)
    → is_pending key (prs ++ (pr ∷ [])) ≡ (is_pending key prs || str_eq pr.request_id key)
is_pending-snoc key [] pr = ground arith
is_pending-snoc key (p ∷ prs) pr = ground (arith, is_pending-snoc key prs pr)

pub is_pending-others :
    (key k : String) (prs : List PendingRequest)
    → str_eq k key ≡ false
    → is_pending k (others key prs) ≡ is_pending k prs
is_pending-others key k [] h = refl
is_pending-others key k (p ∷ prs) h = ground (
  arith,
  eq_iff k key,
  eq_iff p.request_id key,
  eq_iff p.request_id k,
  is_pending-others key k prs h,
)
