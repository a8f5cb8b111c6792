-- ===== src/Lifecycle/Run/Exits.antt =====
-- policy_lifecycle_workflow.go: how the main loop and the cooling loop end.
use revival_integration.Base.{◌≡◌, refl, true, List, [], ◌∷◌, arith}
use revival_integration.Domain.Status.{is_terminal}
use revival_integration.Lifecycle.State.{PolicyLifecycleState}
use revival_integration.Lifecycle.World.{Env, World}
use revival_integration.Lifecycle.Created.{prune_processed_signals}
use revival_integration.Lifecycle.Step.{handle_signal}
use revival_integration.Lifecycle.Step.Terminal.{handle_signal-is_terminal}
use revival_integration.Lifecycle.Run.{
  Input, cooling, await, start, after_signal, policy_lifecycle_workflow,
}

after_signal-current_status :
    (env : Env) (w : World) → (after_signal env w).state.current_status ≡ w.state.current_status
unfolding after_signal prune_processed_signals
after_signal-current_status env w = refl

await-cooling :
    (env : Env) (inputs : List Input) (w : World) {w' : World}
    → await env inputs w ≡ cooling w'
    → is_terminal w'.state.current_status ≡ true
unfolding await
await-cooling env [] w h = ground arith
await-cooling env (Input.timer ∷ inputs) w h = await-cooling env inputs _ h
await-cooling env (Input.signal s ∷ inputs) w {w'} h = ground (
  arith,
  await-cooling env inputs (after_signal env (handle_signal env s w).0) {w' = w'},
  handle_signal-is_terminal env s w,
  after_signal-current_status env (handle_signal env s w).0,
)

-- The main loop hands over to the cooling period only in a terminal status.
pub policy_lifecycle_workflow-cooling :
    (env : Env) (inputs : List Input) (st : PolicyLifecycleState) {w : World}
    → policy_lifecycle_workflow env inputs st ≡ cooling w
    → is_terminal w.state.current_status ≡ true
unfolding policy_lifecycle_workflow
policy_lifecycle_workflow-cooling env inputs st {w} h =
    ground (arith, await-cooling env inputs (start env st) {w' = w})
