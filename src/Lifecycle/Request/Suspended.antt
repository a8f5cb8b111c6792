-- ===== src/Lifecycle/Request/Suspended.antt =====
-- policy_lifecycle_workflow.go: a death notification for a suspended policy.
use revival_integration.Base.{◌≡◌, refl, true, false, none, [], arith}
use revival_integration.Domain.Status.{Status}
use revival_integration.Domain.Request.{RequestType}
use revival_integration.Lifecycle.Signal.{PolicyRequestSignal}
use revival_integration.Lifecycle.World.{Env, World, seen}
use revival_integration.Lifecycle.Gate.{is_state_eligible}
use revival_integration.Lifecycle.Request.{
  dedup_key, refresh_state, reject_suspended, decide_financial, give_way, handle_financial_request,
  handle_death_notification,
}

-- What a death notification leaves of a suspended policy.
pub record IsTurnedAway (sig : PolicyRequestSignal) (w' : World) : Type 0 where
  pub still_suspended : w'.state.current_status ≡ Status.suspended
  pub nothing_pending : w'.state.pending_requests ≡ []
  pub no_lock : w'.state.active_lock ≡ none
  pub forgotten : seen (dedup_key sig) w' ≡ false

give_way-pending : (w : World) → (give_way w).state.pending_requests ≡ []
unfolding give_way
give_way-pending w = refl

-- The state gate admits a death claim for a suspended policy, and yet the claim is not routed: the
-- policy stays suspended, all its pending requests and its lock are dropped, no claim is pending,
-- and the key is not remembered.
pub handle_death_notification-suspended :
    (env : Env) (sig : PolicyRequestSignal) (w : World)
    → seen (dedup_key sig) w ≡ false
    → (refresh_state env (give_way w)).state.current_status ≡ Status.suspended
    → ((is_state_eligible RequestType.death_claim Status.suspended w.state.encumbrances).0 ≡ true)
      × IsTurnedAway sig (handle_death_notification env sig w)
unfolding handle_death_notification handle_financial_request decide_financial reject_suspended
    refresh_state give_way is_state_eligible
handle_death_notification-suspended env sig w new s = (
  refl,
  record {
    still_suspended = ground arith;
    nothing_pending = ground arith;
    no_lock = ground arith;
    forgotten = ground arith;
  },
)
