-- ===== src/Lifecycle/Run/Cooling.antt =====
-- policy_lifecycle_workflow.go: handleTerminalCooling.
use revival_integration.Base.{◌≡◌, Bool, true, false, ◌||◌, List, [], ◌∷◌, arith}
use revival_integration.Domain.Status.{is_terminal}
use revival_integration.Lifecycle.State.{PolicyLifecycleState}
use revival_integration.Lifecycle.World.{Env, World}
use revival_integration.Lifecycle.Run.{
  CoolingEvent, reopened, cool, handle_cooling_event, handle_terminal_cooling,
}

abbrev is_reopen : CoolingEvent → Bool
is_reopen (CoolingEvent.reopen_request _) = true
is_reopen _ = false

abbrev pub has_reopen : List (CoolingEvent × Bool) → Bool
has_reopen [] = false
has_reopen ((e, _) ∷ es) = is_reopen e || has_reopen es

cooling_event-current_status :
    (env : Env) (e : CoolingEvent) (w : World)
    → is_reopen e ≡ false
    → (handle_cooling_event env e w).state.current_status ≡ w.state.current_status
unfolding handle_cooling_event
cooling_event-current_status env e w h = ground arith

cool-reopened :
    (env : Env) (es : List (CoolingEvent × Bool)) (w : World) {st : PolicyLifecycleState}
    {w' : World}
    → is_terminal w.state.current_status ≡ true
    → cool env es w ≡ reopened st w'
    → (is_terminal st.current_status ≡ false) × (has_reopen es ≡ true)
unfolding cool
cool-reopened env [] w t h = ground arith
cool-reopened env ((e, ready) ∷ es) w {st} {w'} t h = ground (
  arith,
  cooling_event-current_status env e w,
  cool-reopened env es (handle_cooling_event env e w) {st = st} {w' = w'},
)

-- A policy that cools in a terminal status leaves the cooling period for the main loop only by a
-- reopen request, and only in a status that is not terminal.
pub handle_terminal_cooling-reopened :
    (env : Env) (es : List (CoolingEvent × Bool)) (w : World) {st : PolicyLifecycleState}
    {w' : World}
    → is_terminal w.state.current_status ≡ true
    → handle_terminal_cooling env es w ≡ reopened st w'
    → (is_terminal st.current_status ≡ false) × (has_reopen es ≡ true)
unfolding handle_terminal_cooling
handle_terminal_cooling-reopened env es w t h = cool-reopened env es _ t h
