-- ===== src/Lifecycle/Created/Remembered.antt =====
-- handlePolicyCreated remembers the signal that it has handled.
use revival_integration.Base.{
  ◌≡◌, refl, true, false, Bool-cases, inl, inr, some, ℤ, suc, length, arith,
}
use revival_integration.Base.Dicts.{contains-insert_self}
use revival_integration.Lifecycle.Signal.{PolicyCreatedSignal}
use revival_integration.Lifecycle.World.{Env, World, seen}
use revival_integration.Lifecycle.Created.{
  handle_policy_created, load_configs, start_flc_timer, announce, adopt,
}

load_configs-seen :
    (env : Env) (w : World)
    → (load_configs env w).state.processed_signal_ids ≡ w.state.processed_signal_ids
unfolding load_configs
load_configs-seen env w = ground arith

-- The policy is in the database and its search attributes are set.
pub handle_policy_created-seen :
    (env : Env) (sig : PolicyCreatedSignal) (w : World) {id : ℤ}
    → env.initialized (length w.trace) ≡ some id
    → env.upsert_fails (suc (length w.trace)) ≡ false
    → seen sig.request_id (handle_policy_created env sig w) ≡ true
unfolding handle_policy_created start_flc_timer announce adopt
handle_policy_created-seen env sig w {id} stored set = elim (Bool-cases (seen sig.request_id w)) [
  | inl known ↦ rw (known, known) refl
  | inr new ↦ rw (new, stored, set, load_configs-seen) (contains-insert_self sig.request_id _ _)
]
