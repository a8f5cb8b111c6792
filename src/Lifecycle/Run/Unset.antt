-- ===== src/Lifecycle/Run/Unset.antt =====
-- policy_lifecycle_workflow.go: a policy without a status, as long as nothing but policy-created
-- signals and timers arrive.
use revival_integration.Base.{◌≡◌, ◌∙◌, Bool, true, false, none, List, [], ◌∷◌, arith}
use revival_integration.Domain.Status.{Status, status_eq}
use revival_integration.Lifecycle.State.{PolicyLifecycleState}
use revival_integration.Lifecycle.Signal.{Signal, PolicyCreatedSignal}
use revival_integration.Lifecycle.World.{Env, World}
use revival_integration.Lifecycle.Created.{
  handle_policy_created, prune_processed_signals, fire_flc_timer,
}
use revival_integration.Lifecycle.Step.{handle_signal}
use revival_integration.Lifecycle.Run.{
  Input, await, start, wake, after_signal, continued_state, policy_lifecycle_workflow,
}
use revival_integration.Lifecycle.Run.Locks.{final_state}

-- Nothing but policy-created signals and timers.
abbrev pub only_creations : List Input → Bool
only_creations [] = true
only_creations (Input.timer ∷ inputs) = only_creations inputs
only_creations (Input.signal (Signal.policy_created _) ∷ inputs) = only_creations inputs
only_creations (_ ∷ inputs) = false

-- No status and no lock.
abbrev pub IsBlank : PolicyLifecycleState → Type 0
IsBlank st = (st.current_status ≡ Status.unset) × (st.active_lock ≡ none)

created-status :
    (env : Env) (sig : PolicyCreatedSignal) (w : World)
    → (handle_policy_created env sig w).state.current_status ≡ w.state.current_status
unfolding handle_policy_created
created-status env sig w = ground arith

created-lock :
    (env : Env) (sig : PolicyCreatedSignal) (w : World)
    → (handle_policy_created env sig w).state.active_lock ≡ w.state.active_lock
unfolding handle_policy_created
created-lock env sig w = ground arith

handle_policy_created-IsBlank :
    (env : Env) (sig : PolicyCreatedSignal) (w : World)
    → IsBlank w.state
    → IsBlank (handle_policy_created env sig w).state
handle_policy_created-IsBlank env sig w (s, l) =
    (created-status env sig w ∙ s, created-lock env sig w ∙ l)

wake-IsBlank : (env : Env) (w : World) → IsBlank w.state → IsBlank (wake env w).state
unfolding wake fire_flc_timer status_eq
wake-IsBlank env w (s, l) = (ground arith, ground arith)

after_signal-IsBlank :
    (env : Env) (w : World) → IsBlank w.state → IsBlank (after_signal env w).state
unfolding after_signal prune_processed_signals
after_signal-IsBlank env w h = h

await-IsBlank :
    (env : Env) (inputs : List Input) (w : World)
    → only_creations inputs ≡ true
    → IsBlank w.state
    → IsBlank (final_state (await env inputs w))
unfolding await continued_state handle_signal
await-IsBlank env [] w n h = h
await-IsBlank env (Input.timer ∷ inputs) w n h =
    await-IsBlank env inputs (wake env w) n (wake-IsBlank env w h)
await-IsBlank env (Input.signal (Signal.policy_created sig) ∷ inputs) w n h =
    let next = after_signal env (handle_policy_created env sig w) in
    let d : IsBlank next.state =
      after_signal-IsBlank env _ (handle_policy_created-IsBlank env sig w h) in
    let rest = await-IsBlank env inputs next n d in (ground arith, ground arith)
await-IsBlank env (Input.signal _ ∷ inputs) w n h = absurd (ground arith)

pub policy_lifecycle_workflow-IsBlank :
    (env : Env) (inputs : List Input) (st : PolicyLifecycleState)
    → only_creations inputs ≡ true
    → IsBlank st
    → IsBlank (final_state (policy_lifecycle_workflow env inputs st))
unfolding policy_lifecycle_workflow start continued_state
policy_lifecycle_workflow-IsBlank env inputs st n h =
    let s : IsBlank (start env st).state = (ground arith, ground arith) in
    let rest = await-IsBlank env inputs (start env st) n s in (ground arith, ground arith)
