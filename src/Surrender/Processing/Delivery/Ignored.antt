-- ===== src/Surrender/Processing/Delivery/Ignored.antt =====
-- A surrender from its request to its completion signal: handleFinancialRequest,
-- SurrenderProcessingWorkflow and handleOperationCompleted together.
use mathlib.Core.Path.{subst}
use revival_integration.Base.{
  ◌≡◌, refl, sym, ap, ◌∙◌, true, false, Option, some, List, [], ◌∷◌, String, arith,
}
use revival_integration.Domain.Status.{Status, status_eq}
use revival_integration.Domain.Request.{RequestType}
use revival_integration.Stdlib.Duration.{Time}
use revival_integration.Lifecycle.Signal.{Signal, PolicyRequestSignal}
use revival_integration.Lifecycle.Command.{ChildWorkflowInput}
use revival_integration.Lifecycle.World.{Env, World, seen}
use revival_integration.Lifecycle.Gate.{is_request_eligible, requires_financial_lock}
use revival_integration.Lifecycle.Request.{
  dedup_key, refresh_state, dispatch_child, route_financial,
}
use revival_integration.Lifecycle.Request.Routed.{
  handle_financial_request-routed, handle_financial_request-IsRouted,
}
use revival_integration.Lifecycle.Pending.Compaction.{is_pending}
use revival_integration.Lifecycle.Pending.Locks.{holds_lock}
use revival_integration.Lifecycle.Step.{as_request, handle_signal}
use revival_integration.Lifecycle.Step.Keys.{signal_key}
use revival_integration.Lifecycle.Step.Duplicates.{duplicate_ignored}
use revival_integration.Surrender.Contract.{SignalPmWorkflowInput, completed_signal}
use revival_integration.Surrender.Desks.{ProcessingCall, ProcessingEnv, ProcessingOutcome}
use revival_integration.Surrender.Processing.{surrender_processing_workflow}
use revival_integration.Surrender.Processing.Report.{
  reports, IsReported, surrender_processing_workflow-IsReported,
}
use revival_integration.Surrender.Processing.Delivery.{
  surrender_input, decoded, last_child, delivered,
}

-- The child workflow of a routed request has the request's key.
route_financial-last_child :
    (env : Env) (key : String) (sig : PolicyRequestSignal) (w : World) {child : ChildWorkflowInput}
    → last_child (route_financial env key sig w).trace ≡ some child
    → child.request_id ≡ key
unfolding route_financial dispatch_child
route_financial-last_child env key sig w h = ground arith

-- The report of an ended workflow carries the identifier of its input.
reported :
    (penv : ProcessingEnv) (child : ChildWorkflowInput) {err : Option String}
    {calls : List ProcessingCall}
    → surrender_processing_workflow penv (surrender_input child) ≡ ProcessingOutcome.ended err calls
    → (s : SignalPmWorkflowInput) × (reports calls ≡ s ∷ []) × (s.request_id ≡ child.request_id)
unfolding IsReported surrender_input
reported penv child ended =
    let (s, one, tells) =
      subst (IsReported penv (surrender_input child)) ended
        (surrender_processing_workflow-IsReported penv (surrender_input child)) in
    (s, one, tells.of_request)

module _ (env : Env) (sig : PolicyRequestSignal) (w : World) where
  abbrev surrender : PolicyRequestSignal
  surrender = as_request RequestType.surrender sig

  abbrev routed : World
  routed = (handle_signal env (Signal.surrender_request sig) w).0

  -- A new surrender request for a policy that is not suspended and where the query admits it starts
  -- the surrender workflow. Once that has ended, and however it has ended, also with the money paid,
  -- it has asked for one completion signal, and if this signal is delivered next, policy management
  -- drops it as a duplicate, since it carries the key under which the request itself was remembered:
  -- no field of the state changes, so the request stays pending and keeps the financial lock.
  pub surrender_completion_ignored :
      seen (dedup_key sig) w ≡ false
      → status_eq (refresh_state env w).state.current_status Status.suspended ≡ false
      → (is_request_eligible RequestType.surrender (refresh_state env w).state).eligible ≡ true
      → {child : ChildWorkflowInput} → last_child routed.trace ≡ some child
      → (penv : ProcessingEnv) {err : Option String} {calls : List ProcessingCall}
      → surrender_processing_workflow penv (surrender_input child)
        ≡ ProcessingOutcome.ended err calls
      → (at : Time)
      → (s : SignalPmWorkflowInput) × (reports calls ≡ s ∷ [])
        × (handle_signal env (delivered at s) routed ≡ (routed, false))
        × (is_pending (dedup_key sig) routed.state.pending_requests ≡ true)
        × (holds_lock (dedup_key sig) routed.state.active_lock ≡ true)
  unfolding handle_signal dedup_key requires_financial_lock decoded completed_signal
  surrender_completion_ignored new awake eligible {child} started penv ended at =
      let is_routed = handle_financial_request-IsRouted env surrender w new awake eligible in
      let path = handle_financial_request-routed env surrender w new awake eligible in
      let key : child.request_id ≡ dedup_key sig =
        route_financial-last_child env (dedup_key surrender) surrender (refresh_state env w)
          (ap (λ v. last_child v.trace) (sym path) ∙ started) in
      let (s, one, id) = reported penv child ended in
      let known : signal_key (delivered at s) ≡ some (dedup_key sig) = ap some (id ∙ key) in
      (
        s,
        one,
        duplicate_ignored env (delivered at s) routed known is_routed.remembered,
        is_routed.pending,
        is_routed.locked refl,
      )
