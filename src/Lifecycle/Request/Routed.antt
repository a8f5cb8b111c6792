-- ===== src/Lifecycle/Request/Routed.antt =====
-- policy_lifecycle_workflow.go: handleFinancialRequest against the query is-request-eligible.
use text.Mathlib.TextPositions.{eq_refl}
use revival_integration.Base.{suc, ◌≡◌, refl, true, false, String, arith, length, length-append}
use revival_integration.Base.Dicts.{contains-insert_self}
use revival_integration.Domain.Status.{Status, status_eq}
use revival_integration.Lifecycle.Signal.{PolicyRequestSignal}
use revival_integration.Lifecycle.World.{Env, World, seen}
use revival_integration.Lifecycle.Transition.{do_transition}
use revival_integration.Lifecycle.Gate.{is_request_eligible, requires_financial_lock}
use revival_integration.Lifecycle.Routing.{request_type_to_signal_name}
use revival_integration.Lifecycle.Pending.Compaction.{is_pending}
use revival_integration.Lifecycle.Pending.Locks.{is_pending-snoc, holds_lock}
use revival_integration.Lifecycle.Request.{
  dedup_key, refresh_state, reject_at_gate, pre_route, acquire_lock, dispatch_child,
  route_financial, decide_financial, handle_financial_request,
}

-- What a routed request leaves: it is pending, once more than before, it holds the lock if its type
-- needs one, and its key is remembered.
pub record IsRouted (key : String) (sig : PolicyRequestSignal) (w w' : World) : Type 0 where
  pub pending : is_pending key w'.state.pending_requests ≡ true
  pub added : length w'.state.pending_requests ≡ suc (length w.state.pending_requests)
  pub locked :
      requires_financial_lock sig.request_type ≡ true → holds_lock key w'.state.active_lock ≡ true
  pub unlocked :
      requires_financial_lock sig.request_type ≡ false → w'.state.active_lock ≡ w.state.active_lock
  pub remembered : seen key w' ≡ true

-- What a refused request leaves: everything that routing is about as it was, and its key.
pub record IsRefused (key : String) (w w' : World) : Type 0 where
  pub same_pending : w'.state.pending_requests ≡ w.state.pending_requests
  pub same_lock : w'.state.active_lock ≡ w.state.active_lock
  pub same_status : w'.state.current_status ≡ w.state.current_status
  pub remembered : seen key w' ≡ true

module _ (env : Env) (key : String) (sig : PolicyRequestSignal) (w : World) where
  routed-pending : is_pending key (route_financial env key sig w).state.pending_requests ≡ true
  unfolding route_financial dispatch_child
  routed-pending = grind (arith, is_pending-snoc, eq_refl key)

  routed-length :
      length (route_financial env key sig w).state.pending_requests
      ≡ suc (length w.state.pending_requests)
  unfolding route_financial dispatch_child acquire_lock pre_route do_transition
  routed-length = grind (arith, length-append {0})

  routed-locked :
      requires_financial_lock sig.request_type ≡ true
      → holds_lock key (route_financial env key sig w).state.active_lock ≡ true
  unfolding route_financial dispatch_child acquire_lock
  routed-locked h = ground (arith, eq_refl key)

  routed-unlocked :
      requires_financial_lock sig.request_type ≡ false
      → (route_financial env key sig w).state.active_lock ≡ w.state.active_lock
  unfolding route_financial dispatch_child acquire_lock pre_route do_transition
  routed-unlocked h = ground arith

  routed-remembered : seen key (route_financial env key sig w) ≡ true
  unfolding route_financial dispatch_child
  routed-remembered = contains-insert_self key _ _

  route_financial-IsRouted : IsRouted key sig w (route_financial env key sig w)
  route_financial-IsRouted = record {
    pending = routed-pending;
    added = routed-length;
    locked = routed-locked;
    unlocked = routed-unlocked;
    remembered = routed-remembered;
  }

  reject_at_gate-IsRefused :
      (channel reason : String) → IsRefused key w (reject_at_gate env channel key sig reason w)
  unfolding reject_at_gate
  reject_at_gate-IsRefused channel reason = record {
    same_pending = refl;
    same_lock = refl;
    same_status = refl;
    remembered = contains-insert_self key _ _;
  }

  -- Which of the two outcomes the checks lead to, where the policy is not suspended.
  routes :
      status_eq w.state.current_status Status.suspended ≡ false
      → (is_request_eligible sig.request_type w.state).eligible ≡ true
      → decide_financial env key sig w ≡ route_financial env key sig w
  unfolding decide_financial is_request_eligible
  routes s h = ground arith

  refuses :
      status_eq w.state.current_status Status.suspended ≡ false
      → (is_request_eligible sig.request_type w.state).eligible ≡ false
      → (channel : String) × (reason : String) × (decide_financial env key sig w
          ≡ reject_at_gate env channel key sig reason w)
  unfolding decide_financial is_request_eligible
  refuses s h = (
    request_type_to_signal_name sig.request_type,
    (is_request_eligible sig.request_type w.state).reason,
    ground arith,
  )

module _ (env : Env) (sig : PolicyRequestSignal) (w : World) (new : seen (dedup_key sig) w ≡ false)
    (awake : status_eq (refresh_state env w).state.current_status Status.suspended ≡ false) where
  pub handle_financial_request-routed :
      (is_request_eligible sig.request_type (refresh_state env w).state).eligible ≡ true
      → handle_financial_request env sig w
        ≡ route_financial env (dedup_key sig) sig (refresh_state env w)
  unfolding handle_financial_request
  handle_financial_request-routed h =
      rw new (routes env (dedup_key sig) sig (refresh_state env w) awake h)

  -- A new request for a policy that is not suspended, in the state as the database gives it, is
  -- routed where the query `is-request-eligible` answers yes: it is pending, once more than before,
  -- it holds the lock exactly if its type needs one, and its key is remembered.
  pub handle_financial_request-IsRouted :
      (is_request_eligible sig.request_type (refresh_state env w).state).eligible ≡ true
      → IsRouted (dedup_key sig) sig (refresh_state env w) (handle_financial_request env sig w)
  unfolding handle_financial_request
  handle_financial_request-IsRouted h =
      rw (new, routes env (dedup_key sig) sig (refresh_state env w) awake h)
        (route_financial-IsRouted env (dedup_key sig) sig (refresh_state env w))

  -- A new request for a policy that is not suspended, in the state as the database gives it, is
  -- refused where the query `is-request-eligible` answers no: the pending requests, the lock and the
  -- status stay as they are, and the key is remembered.
  pub handle_financial_request-IsRefused :
      (is_request_eligible sig.request_type (refresh_state env w).state).eligible ≡ false
      → IsRefused (dedup_key sig) (refresh_state env w) (handle_financial_request env sig w)
  unfolding handle_financial_request
  handle_financial_request-IsRefused h =
      let fresh = refresh_state env w in
      let (channel, reason, e) = refuses env (dedup_key sig) sig fresh awake h in
      rw (new, e) (reject_at_gate-IsRefused env (dedup_key sig) sig fresh channel reason)
