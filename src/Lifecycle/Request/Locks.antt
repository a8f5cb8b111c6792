-- ===== src/Lifecycle/Request/Locks.antt =====
-- policy_lifecycle_workflow.go: the lock under handleFinancialRequest, handleDeathNotification and
-- handleNFRRequest.
use text.Mathlib.TextPositions.{eq_refl}
use revival_integration.Base.{◌≡◌, none, String, arith}
use revival_integration.Stdlib.Duration.{Time}
use revival_integration.Domain.Request.{RequestCategory}
use revival_integration.Lifecycle.Signal.{PolicyRequestSignal}
use revival_integration.Lifecycle.World.{Env, World}
use revival_integration.Lifecycle.Transition.{do_transition}
use revival_integration.Lifecycle.Pending.Locks.{LockIsCovered, is_pending-snoc}
use revival_integration.Lifecycle.Request.{
  refresh_state, reject_at_gate, reject_suspended, pre_route, acquire_lock, dispatch_child,
  route_financial, decide_financial, give_way, handle_financial_request, handle_death_notification,
  handle_nfr_request,
}

-- The dispatched request is pending, and what was pending still is.
dispatch_child-LockIsCovered :
    (env : Env) (key : String) (sig : PolicyRequestSignal) (c : RequestCategory) (t : Time)
    (w : World)
    → LockIsCovered w
    → LockIsCovered (dispatch_child env key sig c t w)
unfolding dispatch_child
dispatch_child-LockIsCovered env key sig c t w h = grind (arith, is_pending-snoc)

-- A lock that is taken is covered once its request is dispatched.
route_financial-LockIsCovered :
    (env : Env) (key : String) (sig : PolicyRequestSignal) (w : World)
    → LockIsCovered w
    → LockIsCovered (route_financial env key sig w)
unfolding route_financial dispatch_child acquire_lock pre_route do_transition
route_financial-LockIsCovered env key sig w h = grind (arith, is_pending-snoc, eq_refl key)

decide_financial-LockIsCovered :
    (env : Env) (key : String) (sig : PolicyRequestSignal) (w : World)
    → LockIsCovered w
    → LockIsCovered (decide_financial env key sig w)
unfolding decide_financial reject_at_gate reject_suspended
decide_financial-LockIsCovered env key sig w h =
    ground (arith, route_financial-LockIsCovered env key sig w)

refresh_state-LockIsCovered :
    (env : Env) (w : World) → LockIsCovered w → LockIsCovered (refresh_state env w)
unfolding refresh_state
refresh_state-LockIsCovered env w h = ground arith

pub handle_financial_request-LockIsCovered :
    (env : Env) (sig : PolicyRequestSignal) (w : World)
    → LockIsCovered w
    → LockIsCovered (handle_financial_request env sig w)
unfolding handle_financial_request
handle_financial_request-LockIsCovered env sig w h =
    grind (arith, decide_financial-LockIsCovered, refresh_state-LockIsCovered)

pub give_way-active_lock : (w : World) → (give_way w).state.active_lock ≡ none
unfolding give_way
give_way-active_lock w = ground arith

give_way-LockIsCovered : (w : World) → LockIsCovered (give_way w)
give_way-LockIsCovered w = rw (give_way-active_lock w)

pub handle_death_notification-LockIsCovered :
    (env : Env) (sig : PolicyRequestSignal) (w : World)
    → LockIsCovered w
    → LockIsCovered (handle_death_notification env sig w)
unfolding handle_death_notification
handle_death_notification-LockIsCovered env sig w h =
    ground
      (arith, handle_financial_request-LockIsCovered env sig (give_way w), give_way-LockIsCovered w)

pub handle_nfr_request-LockIsCovered :
    (env : Env) (sig : PolicyRequestSignal) (w : World)
    → LockIsCovered w
    → LockIsCovered (handle_nfr_request env sig w)
unfolding handle_nfr_request reject_at_gate
handle_nfr_request-LockIsCovered env sig w h =
    grind (arith, dispatch_child-LockIsCovered, refresh_state-LockIsCovered)
