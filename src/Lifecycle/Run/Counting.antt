-- ===== src/Lifecycle/Run/Counting.antt =====
-- policy_lifecycle_workflow.go: the event counter, and Continue-As-New.
use revival_integration.Base.{
  ℕ, suc, ◌+◌, ◌-◌, ◌<◌, ◌≡◌, refl, ◌∙◌, ap, Bool-cases, inl, inr, false, List, [], ◌∷◌, ◌==◌,
  arith,
}
use revival_integration.Lifecycle.State.{PolicyLifecycleState}
use revival_integration.Lifecycle.World.{Env, World}
use revival_integration.Lifecycle.Transition.{do_transition}
use revival_integration.Lifecycle.Created.{prune_processed_signals, fire_flc_timer}
use revival_integration.Lifecycle.Step.{handle_signal}
use revival_integration.Lifecycle.Step.Frame.{handle_signal-event_count}
use revival_integration.Lifecycle.Run.{
  Input, waiting, continued, await, start, wake, after_signal, should_continue_as_new,
  continued_state, can_event_threshold, can_history_size_bytes, can_time_threshold,
  policy_lifecycle_workflow,
}

abbrev pub signals : List Input → ℕ
signals [] = 0
signals (Input.signal _ ∷ inputs) = suc (signals inputs)
signals (Input.timer ∷ inputs) = signals inputs

after_signal-event_count :
    (env : Env) (w : World)
    → w.state.event_count < can_event_threshold
    → (after_signal env w).state.event_count ≡ suc w.state.event_count
unfolding after_signal prune_processed_signals
after_signal-event_count env w h = omega arith

wake-event_count : (env : Env) (w : World) → (wake env w).state.event_count ≡ w.state.event_count
unfolding wake fire_flc_timer do_transition
wake-event_count env w = ground arith

below_threshold :
    (env : Env) (w : World)
    → should_continue_as_new env w ≡ false
    → w.state.event_count < can_event_threshold
unfolding should_continue_as_new
below_threshold env w h = ground arith

await-waiting :
    (env : Env) (inputs : List Input) (w : World) {w' : World}
    → w.state.event_count < can_event_threshold
    → await env inputs w ≡ waiting w'
    → (w'.state.event_count ≡ w.state.event_count + signals inputs)
      × (w'.state.event_count < can_event_threshold)
unfolding await
await-waiting env [] w b h = ground arith
await-waiting env (Input.timer ∷ inputs) w {w'} b h =
    ground (arith, await-waiting env inputs (wake env w) {w' = w'}, wake-event_count env w)
await-waiting env (Input.signal s ∷ inputs) w {w'} b h =
    let handled = (handle_signal env s w).0 in
    ground (
      arith,
      await-waiting env inputs (after_signal env handled) {w' = w'},
      handle_signal-event_count env s w,
      after_signal-event_count env handled,
      below_threshold env (after_signal env handled),
    )

-- While a run waits for input, its event counter is the one that it started with plus the signals
-- received so far, and it is below the threshold of Continue-As-New.
pub policy_lifecycle_workflow-waiting :
    (env : Env) (inputs : List Input) (st : PolicyLifecycleState) {w : World}
    → policy_lifecycle_workflow env inputs st ≡ waiting w
    → (w.state.event_count ≡ st.event_count + signals inputs)
      × (w.state.event_count < can_event_threshold)
unfolding policy_lifecycle_workflow
policy_lifecycle_workflow-waiting env inputs st {w} h =
    ground
      (arith, await-waiting env inputs (start env st) {w' = w}, below_threshold env (start env st))

await-continued :
    (env : Env) (inputs : List Input) (w : World) {st : PolicyLifecycleState} {w' : World}
    → await env inputs w ≡ continued st w'
    → st ≡ continued_state env w'
unfolding await
await-continued env [] w h = cc
await-continued env (Input.timer ∷ inputs) w h = await-continued env inputs (wake env w) h
await-continued env (Input.signal s ∷ inputs) w {st} {w'} h =
    let next = after_signal env (handle_signal env s w).0 in
    ground (arith, await-continued env inputs next {st = st} {w' = w'})

continued_state_of :
    (env : Env) (inputs : List Input) (st : PolicyLifecycleState) {st' : PolicyLifecycleState}
    {w : World}
    → policy_lifecycle_workflow env inputs st ≡ continued st' w
    → st' ≡ continued_state env w
unfolding policy_lifecycle_workflow
continued_state_of env inputs st {st'} {w} h =
    ground (arith, await-continued env inputs (start env st) {st = st'} {w' = w})

-- A run starts with the state it is given, but for the time of the last Continue-As-New.
start-state :
    (env : Env) (st : PolicyLifecycleState)
    → (start env st).state ≡ record st { last_can_time = (start env st).state.last_can_time }
unfolding start
start-state env st = elim (Bool-cases (st.last_can_time == 0)) [
  | inl e ↦ rw (e) refl
  | inr e ↦ rw (e) refl
]

-- No run continues itself at once: the next run after Continue-As-New waits for input, with the
-- state of the old run but for the event counter, which is 0, and the time of the last
-- Continue-As-New, if its history is below both thresholds and it starts within 30 days of that
-- time.
pub continued_run_waits :
    (env env' : Env) (inputs : List Input) (st : PolicyLifecycleState) {st' : PolicyLifecycleState}
    {w : World}
    → policy_lifecycle_workflow env inputs st ≡ continued st' w
    → env'.history_length 0 < can_event_threshold
    → env'.history_size 0 < can_history_size_bytes
    → env'.clock 0 - st'.last_can_time < can_time_threshold
    → (w' : World) × (policy_lifecycle_workflow env' [] st' ≡ waiting w')
      × (w'.state ≡ record w.state { last_can_time = w'.state.last_can_time; event_count = 0 })
unfolding policy_lifecycle_workflow continued_state should_continue_as_new
continued_run_waits env env' inputs st {st'} {w} h len size time =
    let e = continued_state_of env inputs st h in
    let begun = start env' st' in
    let at : PolicyLifecycleState → PolicyLifecycleState =
      λ s. record s { last_can_time = begun.state.last_can_time } in
    (begun, ground arith, start-state env' st' ∙ ap at e)
