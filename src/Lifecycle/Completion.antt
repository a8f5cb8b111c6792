-- ===== src/Lifecycle/Completion.antt =====
-- policy_lifecycle_workflow.go: handleOperationCompleted, handleClaimSettled, handleNFRCompleted,
-- filterNFRPayload, resolveCompletionTransition, updateEncumbrancesFromCompletion.
pub mod Terminal
pub mod Registry
pub mod Locks
pub mod Metadata
pub mod Orphan
pub mod Encumbrances
pub mod AllowList
use text.Mathlib.Text.{◌==◌ as str_eq}
use revival_integration.Base.{
  Bool, true, false, not, ◌&&◌, ◌||◌, Option, none, some, List, [], ◌∷◌, String, ◌<>◌, pos,
  if◌then◌else◌,
}
use revival_integration.Domain.Status.{Status, status_eq}
use revival_integration.Domain.Request.{
  RequestType, RequestOutcome, RequestStatus, request_type_text, request_outcome_text,
}
use revival_integration.Lifecycle.State.{PolicyLifecycleState, PendingRequest}
use revival_integration.Lifecycle.Signal.{OperationCompletedSignal, Payload, RawMessage}
use revival_integration.Lifecycle.Command.{Command, SignalStatus, MetadataValue}
use revival_integration.Lifecycle.World.{
  Env, World, now, emit, put, seen, mark_processed, log_signal, update_metadata,
}
use revival_integration.Lifecycle.Transition.{do_transition}
use revival_integration.Lifecycle.Request.{blank_update}
use revival_integration.Lifecycle.Pending.{take_pending}

abbrev pub is_approved : RequestOutcome → Bool
is_approved RequestOutcome.approved = true
is_approved _ = false

abbrev is_rejected : RequestOutcome → Bool
is_rejected RequestOutcome.rejected = true
is_rejected _ = false

-- The new status (`unset` is the empty string: no change) and whether it is terminal.
unfoldable pub resolve_completion_transition :
    RequestType → PolicyLifecycleState → OperationCompletedSignal → Status × Bool
resolve_completion_transition RequestType.surrender st sig =
    if is_approved sig.outcome then (Status.surrendered, true) else (st.previous_status, false)
resolve_completion_transition RequestType.forced_surrender st sig =
    if is_approved sig.outcome
    then if str_eq sig.state_transition "REDUCED_PAID_UP"
      then (Status.reduced_paid_up, false)
      else (Status.terminated_surrender, true)
    else (st.previous_status, false)
resolve_completion_transition RequestType.revival st sig =
    if is_approved sig.outcome then (Status.active, false) else (st.previous_status, false)
resolve_completion_transition RequestType.death_claim st sig =
    if is_approved sig.outcome
    then (Status.death_claim_settled, true)
    else if is_rejected sig.outcome
    then (st.previous_status, false)
    else (Status.unset, false)
resolve_completion_transition RequestType.maturity_claim st sig =
    if is_approved sig.outcome
    then (Status.matured, true)
    else if is_rejected sig.outcome
    then (st.previous_status, false)
    else (Status.unset, false)
resolve_completion_transition RequestType.survival_benefit st sig =
    if is_approved sig.outcome
    then (Status.unset, false)
    else if is_rejected sig.outcome
    then (st.previous_status, false)
    else (Status.unset, false)
resolve_completion_transition RequestType.conversion st sig =
    if is_approved sig.outcome then (Status.converted, true) else (Status.unset, false)
resolve_completion_transition RequestType.flc st sig =
    if is_approved sig.outcome then (Status.flc_cancelled, true) else (Status.unset, false)
resolve_completion_transition _ st sig = (Status.unset, false)

-- The `switch` of updateEncumbrancesFromCompletion.
unfoldable pub update_encumbrances : RequestType → RequestOutcome → World → World
update_encumbrances RequestType.loan outcome w =
    if not (is_approved outcome)
    then w
    else update_metadata
        (("has_active_loan", MetadataValue.flag true)
          ∷ ("assignment_type", MetadataValue.text "ABSOLUTE")
          ∷ ("assignment_status", MetadataValue.text "ASSIGNED_TO_PRESIDENT")
          ∷ [])
        (put
          (record w.state {
            encumbrances = record w.state.encumbrances {
              has_active_loan = true;
              assignment_type = "ABSOLUTE";
            };
          })
          w)
update_encumbrances RequestType.loan_repayment outcome w =
    if not (is_approved outcome)
    then w
    else update_metadata
        (("has_active_loan", MetadataValue.flag false)
          ∷ ("loan_outstanding", MetadataValue.number (pos 0))
          ∷ ("assignment_type", MetadataValue.text "NONE")
          ∷ [])
        (put
          (record w.state {
            encumbrances = record w.state.encumbrances { has_active_loan = false };
            metadata = record w.state.metadata { loan_outstanding = pos 0 };
          })
          w)
update_encumbrances _ outcome w = w

-- The lock is released if the completed request holds it.
unfoldable pub release_lock_of : String → World → World
release_lock_of key w = elim w.state.active_lock [
  | none ↦ w
  | some lock ↦
      if str_eq lock.request_id key
      then emit (Command.release_financial_lock w.state.policy_db_id)
          (put (record w.state { active_lock = none }) w)
      else w
]

unfoldable pub apply_resolution : Env → OperationCompletedSignal → World → World
apply_resolution env sig w =
    let target = (resolve_completion_transition sig.request_type w.state sig).0 in
    if not (status_eq target Status.unset) && not (status_eq target w.state.current_status)
    then do_transition env w.state.current_status target
        (request_type_text sig.request_type <> (" " <> request_outcome_text sig.outcome))
        (request_type_text sig.request_type) sig.request_id w
    else w

-- What follows once `matched` is not nil.
unfoldable pub complete_matched :
    Env → OperationCompletedSignal → PendingRequest → World → World × Bool
complete_matched env sig matched w =
    let free = release_lock_of sig.request_id w in
    let updated =
      emit
        (Command.update_service_request (record blank_update {
          service_request_id = matched.service_request_id;
          submitted_at = matched.submitted_at;
          status = RequestStatus.completed;
          outcome = some sig.outcome;
          completed_at = some (now env free);
          outcome_payload = sig.outcome_payload;
        }))
        free in
    let is_terminal = (resolve_completion_transition sig.request_type updated.state sig).1 in
    let moved = apply_resolution env sig updated in
    let done = update_encumbrances sig.request_type sig.outcome moved in
    (mark_processed env sig.request_id done, is_terminal)

unfoldable pub handle_operation_completed : Env → OperationCompletedSignal → World → World × Bool
handle_operation_completed env sig w =
    let logged =
      log_signal "operation-completed" (Payload.completed sig) sig.request_id SignalStatus.processed
        w.state.current_status w in
    let (remaining, matched) = take_pending sig.request_id w.state.pending_requests in
    let rest = put (record w.state { pending_requests = remaining }) logged in
    if seen sig.request_id w then (w, false) else elim matched [
      | none ↦ (mark_processed env sig.request_id rest, false)
      | some pr ↦ complete_matched env sig pr rest
    ]

unfoldable pub handle_claim_settled : Env → OperationCompletedSignal → World → World × Bool
handle_claim_settled = handle_operation_completed

-- `nfrMetadataAllowList`: the keys that a request type may write, or `none` if it has no entry.
nfr_metadata_allow_list : RequestType → Option (List String)
nfr_metadata_allow_list RequestType.assignment =
    some ("assignment_type" ∷ "assignment_status" ∷ "assignee_name" ∷ "assignee_address" ∷ [])
nfr_metadata_allow_list _ = none

pub one_of : String → List String → Bool
one_of k [] = false
one_of k (j ∷ js) = str_eq j k || one_of k js

pub allowed_entries : List String → List (String × String) → List (String × MetadataValue)
unfolding one_of
allowed_entries allowed [] = []
allowed_entries allowed ((k, v) ∷ payload) =
    let rest = allowed_entries allowed payload in
    if one_of k allowed then (k, MetadataValue.json v) ∷ rest else rest

-- A nil result and an empty one are both the empty list: the caller tests `len(filtered) > 0`.
pub filter_nfr_payload : RequestType → List (String × String) → List (String × MetadataValue)
unfolding nfr_metadata_allow_list allowed_entries
filter_nfr_payload request_type payload = elim (nfr_metadata_allow_list request_type) [
  | none ↦ []
  | some allowed ↦ allowed_entries allowed payload
]

-- The metadata that an approved request reports, where the payload is an object.
reported_metadata : RequestType → RawMessage → List (String × MetadataValue)
unfolding filter_nfr_payload
reported_metadata request_type (RawMessage.object payload) = filter_nfr_payload request_type payload
reported_metadata request_type _ = []

write_metadata : List (String × MetadataValue) → World → World
write_metadata [] w = w
write_metadata (e ∷ es) w = update_metadata (e ∷ es) w

unfoldable pub handle_nfr_completed : Env → OperationCompletedSignal → World → World
unfolding reported_metadata write_metadata
handle_nfr_completed env sig w =
    let (remaining, matched) = take_pending sig.request_id w.state.pending_requests in
    let rest = put (record w.state { pending_requests = remaining }) w in
    elim matched [
      | none ↦ rest
      | some pr ↦
          let updated =
            emit
              (Command.update_service_request (record blank_update {
                service_request_id = pr.service_request_id;
                submitted_at = pr.submitted_at;
                status = RequestStatus.completed;
                outcome = some sig.outcome;
                completed_at = some (now env rest);
              }))
              rest in
          if is_approved sig.outcome
          then write_metadata (reported_metadata pr.request_type sig.outcome_payload) updated
          else updated
    ]
