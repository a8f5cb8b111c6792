-- ===== src/Lifecycle/Run/Locks.antt =====
-- policy_lifecycle_workflow.go: the financial lock at the end of a run, however it ends.
use revival_integration.Base.{◌≡◌, Bool, true, false, List, [], ◌∷◌, arith}
use revival_integration.Lifecycle.State.{PolicyLifecycleState}
use revival_integration.Lifecycle.Signal.{Signal}
use revival_integration.Lifecycle.World.{Env, World}
use revival_integration.Lifecycle.Transition.{do_transition}
use revival_integration.Lifecycle.Created.{prune_processed_signals, fire_flc_timer}
use revival_integration.Lifecycle.Pending.Locks.{is_covered, LockIsCovered}
use revival_integration.Lifecycle.Step.{handle_signal}
use revival_integration.Lifecycle.Step.Locks.{handle_signal-LockIsCovered, completes_holder_as_nfr}
use revival_integration.Lifecycle.Run.{
  Input, Outcome, await, start, wake, after_signal, continued_state, policy_lifecycle_workflow,
}

abbrev is_nfr_completed : Signal → Bool
is_nfr_completed (Signal.nfr_completed _) = true
is_nfr_completed _ = false

-- No nfr-completed is among the inputs.
abbrev pub without_nfr_completed : List Input → Bool
without_nfr_completed [] = true
without_nfr_completed (Input.timer ∷ inputs) = without_nfr_completed inputs
without_nfr_completed (Input.signal s ∷ inputs) = elim (is_nfr_completed s) [
  | true ↦ false
  | false ↦ without_nfr_completed inputs
]

-- The state that a run leaves behind: the next run's, if it continues as new.
abbrev pub final_state : Outcome → PolicyLifecycleState
final_state (Outcome.waiting w) = w.state
final_state (Outcome.continued st _) = st
final_state (Outcome.failed w) = w.state
final_state (Outcome.cooling w) = w.state

other_signal :
    (s : Signal) (w : World) → is_nfr_completed s ≡ false → completes_holder_as_nfr s w ≡ false
other_signal s w h = ground arith

after_signal-LockIsCovered :
    (env : Env) (w : World) → LockIsCovered w → LockIsCovered (after_signal env w)
unfolding after_signal prune_processed_signals
after_signal-LockIsCovered env w h = h

wake-LockIsCovered : (env : Env) (w : World) → LockIsCovered w → LockIsCovered (wake env w)
unfolding wake fire_flc_timer do_transition
wake-LockIsCovered env w h = ground arith

await-LockIsCovered :
    (env : Env) (inputs : List Input) (w : World)
    → without_nfr_completed inputs ≡ true
    → LockIsCovered w
    → let st = final_state (await env inputs w) in
      is_covered st.active_lock st.pending_requests ≡ true
unfolding await continued_state
await-LockIsCovered env [] w n h = h
await-LockIsCovered env (Input.timer ∷ inputs) w n h =
    await-LockIsCovered env inputs (wake env w) n (wake-LockIsCovered env w h)
await-LockIsCovered env (Input.signal s ∷ inputs) w n h =
    let m : is_nfr_completed s ≡ false = ground arith in
    let handled = (handle_signal env s w).0 in
    let c = handle_signal-LockIsCovered env s w (other_signal s w m) h in
    let d = after_signal-LockIsCovered env handled c in
    let rest = await-LockIsCovered env inputs (after_signal env handled) (ground arith) d in
    ground arith

-- A run that starts with its lock covered by a pending request and receives no nfr-completed ends
-- with the lock covered, whether it waits, continues as new, fails or goes on to cool.
pub policy_lifecycle_workflow-LockIsCovered :
    (env : Env) (inputs : List Input) (st : PolicyLifecycleState)
    → without_nfr_completed inputs ≡ true
    → is_covered st.active_lock st.pending_requests ≡ true
    → let st' = final_state (policy_lifecycle_workflow env inputs st) in
      is_covered st'.active_lock st'.pending_requests ≡ true
unfolding policy_lifecycle_workflow start continued_state
policy_lifecycle_workflow-LockIsCovered env inputs st n h =
    let s : LockIsCovered (start env st) = ground arith in
    let rest = await-LockIsCovered env inputs (start env st) n s in ground arith
