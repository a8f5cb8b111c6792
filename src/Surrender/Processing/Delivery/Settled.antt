-- ===== src/Surrender/Processing/Delivery/Settled.antt =====
-- handleOperationCompleted on what SurrenderProcessingWorkflow sends, where the signal's key is not
-- remembered.
use text.Mathlib.Text.{◌==◌ as str_eq}
use text.Mathlib.TextEquality.{eq_iff}
use mathlib.Core.Path.{subst}
use revival_integration.Base.{
  ◌≡◌, refl, ap, ◌∙◌, Bool, true, false, Option, none, List, [], ◌∷◌, ◌++◌, String, if◌then◌else◌,
  arith,
}
use revival_integration.Domain.Status.{Status, status_eq}
use revival_integration.Domain.Request.{RequestType, request_outcome_text}
use revival_integration.Stdlib.Duration.{Time}
use revival_integration.Lifecycle.State.{PendingRequest}
use revival_integration.Lifecycle.Signal.{OperationCompletedSignal}
use revival_integration.Lifecycle.World.{Env, World, seen}
use revival_integration.Lifecycle.Transition.{do_transition}
use revival_integration.Lifecycle.Completion.{
  is_approved, resolve_completion_transition, update_encumbrances, release_lock_of,
  apply_resolution, complete_matched, handle_operation_completed,
}
use revival_integration.Lifecycle.Pending.{take_pending}
use revival_integration.Lifecycle.Pending.Compaction.{is_pending, others, take_pending-remaining}
use revival_integration.Lifecycle.Pending.Aliasing.{take_pending-aliased}
use revival_integration.Lifecycle.Pending.Locks.{holds_lock}
use revival_integration.Lifecycle.Step.{as_completed, handle_signal}
use revival_integration.Surrender.Contract.{
  SurrenderProcessingInput, SignalPmWorkflowInput, completed_signal, outcome_approved,
}
use revival_integration.Surrender.Desks.{ProcessingCall, ProcessingEnv, ProcessingOutcome}
use revival_integration.Surrender.Processing.{surrender_processing_workflow}
use revival_integration.Surrender.Processing.Report.{
  reports, is_paid_out, IsReported, surrender_processing_workflow-IsReported,
}
use revival_integration.Surrender.Processing.Delivery.{decoded, delivered}

-- What a completed surrender leaves of the request and the policy.
pub record IsSettled (paid : Bool) (previous : Status) (rest : List PendingRequest) (after : World)
    (terminal : Bool) : Type 0 where
  pub not_pending : after.state.pending_requests ≡ rest
  pub unlocked : after.state.active_lock ≡ none
  pub status : after.state.current_status ≡ (if paid then Status.surrendered else previous)
  pub ends : terminal ≡ paid

others-snoc :
    (key : String) (xs : List PendingRequest) (m : PendingRequest)
    → is_pending key xs ≡ false
    → str_eq m.request_id key ≡ true
    → others key (xs ++ (m ∷ [])) ≡ xs
others-snoc key [] m n e = ground arith
others-snoc key (x ∷ xs) m n e = ground (arith, others-snoc key xs m)

-- The decoded outcome is the approval just where the text says so.
decoded-is_approved :
    (s : SignalPmWorkflowInput) (at : Time)
    → is_approved (decoded (completed_signal at s)).outcome ≡ str_eq s.outcome outcome_approved
unfolding decoded completed_signal request_outcome_text
decoded-is_approved s at = ground (arith, eq_iff "APPROVED" s.outcome, eq_iff s.outcome "APPROVED")

module _ (env : Env) (sig : OperationCompletedSignal) (w : World) (pr : PendingRequest)
    (held : holds_lock sig.request_id w.state.active_lock ≡ true)
    (current : w.state.current_status ≡ Status.pending_surrender)
    (previous : status_eq w.state.previous_status Status.unset ≡ false) where
  abbrev completed : World × Bool
  completed = complete_matched env (as_completed RequestType.surrender sig) pr w

  completed-pending : completed.0.state.pending_requests ≡ w.state.pending_requests
  unfolding complete_matched release_lock_of apply_resolution update_encumbrances do_transition
  completed-pending = ground arith

  completed-unlocked : completed.0.state.active_lock ≡ none
  unfolding complete_matched release_lock_of apply_resolution update_encumbrances do_transition
  completed-unlocked = ground arith

  completed-status :
      completed.0.state.current_status
      ≡ (if is_approved sig.outcome then Status.surrendered else w.state.previous_status)
  unfolding complete_matched release_lock_of apply_resolution update_encumbrances do_transition
      resolve_completion_transition status_eq
  completed-status = ground arith

  completed-ends : completed.1 ≡ is_approved sig.outcome
  unfolding complete_matched release_lock_of resolve_completion_transition
  completed-ends = ground arith

-- What the completion of the last pending request does, by what it says.
settled :
    (env : Env) (sig : OperationCompletedSignal) (w : World) (xs : List PendingRequest)
    (m : PendingRequest)
    → w.state.pending_requests ≡ xs ++ (m ∷ [])
    → is_pending sig.request_id xs ≡ false
    → str_eq m.request_id sig.request_id ≡ true
    → seen sig.request_id w ≡ false
    → holds_lock sig.request_id w.state.active_lock ≡ true
    → w.state.current_status ≡ Status.pending_surrender
    → status_eq w.state.previous_status Status.unset ≡ false
    → let done = handle_operation_completed env (as_completed RequestType.surrender sig) w in
      IsSettled (is_approved sig.outcome) w.state.previous_status xs done.0 done.1
unfolding handle_operation_completed
settled env sig w xs m pending fresh mine new held current previous =
    let matched =
      ap (λ prs. (take_pending sig.request_id prs).1) pending
      ∙ take_pending-aliased sig.request_id xs [] m fresh mine refl in
    let remaining =
      (take_pending-remaining sig.request_id w.state.pending_requests
        ∙ ap (others sig.request_id) pending)
      ∙ others-snoc sig.request_id xs m fresh mine in
    rw (new, matched, remaining)
      (record {
        not_pending = completed-pending env sig _ m held current previous;
        unlocked = completed-unlocked env sig _ m held current previous;
        status = completed-status env sig _ m held current previous;
        ends = completed-ends env sig _ m held current previous;
      })

-- The signal of an ended surrender workflow, delivered to policy management, settles its request, if
-- the policy is PENDING_SURRENDER with a previous status, the request is the last pending one and
-- the only one with its key, it holds the lock, and the key is not remembered, which a request that
-- was routed by signal meets only once its key is pruned. The request and the lock are gone; where a
-- payment was asked for and succeeded, the policy is SURRENDERED and the handler reports a terminal
-- status; where not, the policy has its previous status back and the handler reports none.
pub completed_surrender_settles :
    (penv : ProcessingEnv) (input : SurrenderProcessingInput) {err : Option String}
    {calls : List ProcessingCall}
    → surrender_processing_workflow penv input ≡ ProcessingOutcome.ended err calls
    → (env : Env) (w : World) (xs : List PendingRequest) (m : PendingRequest)
    → w.state.pending_requests ≡ xs ++ (m ∷ [])
    → is_pending input.request_id xs ≡ false
    → m.request_id ≡ input.request_id
    → seen input.request_id w ≡ false
    → holds_lock input.request_id w.state.active_lock ≡ true
    → w.state.current_status ≡ Status.pending_surrender
    → status_eq w.state.previous_status Status.unset ≡ false
    → (at : Time)
    → (s : SignalPmWorkflowInput) × (reports calls ≡ s ∷ [])
      × (let done = handle_signal env (delivered at s) w in
          IsSettled (is_paid_out penv calls) w.state.previous_status xs done.0 done.1)
unfolding handle_signal IsReported decoded completed_signal
completed_surrender_settles penv input ended env w xs m pending fresh mine new held current previous
      at =
    let (s, one, tells) =
      subst (IsReported penv input) ended (surrender_processing_workflow-IsReported penv input) in
    let id = tells.of_request in
    let done = handle_signal env (delivered at s) w in
    (
      s,
      one,
      subst (λ paid. IsSettled paid w.state.previous_status xs done.0 done.1)
          (decoded-is_approved s at ∙ tells.says)
          (settled env (decoded (completed_signal at s)) w xs m pending (rw id fresh)
            (ground (arith, mine, id, eq_iff m.request_id s.request_id)) (rw id new) (rw id held)
            current previous),
    )
