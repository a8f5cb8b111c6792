-- ===== src/Lifecycle/Gate.antt =====
-- policy_lifecycle_workflow.go: isStateEligible, requiresFinancialLock, preRouteStatus and the
-- query is-request-eligible.
pub mod Matrix
use revival_integration.Base.{
  Bool, true, false, not, ◌&&◌, ◌||◌, none, some, String, ◌<>◌, if◌then◌else◌, is_some,
}
use revival_integration.Domain.Status.{Status, status_eq, status_text, is_terminal}
use revival_integration.Domain.Request.{RequestType, request_type_text, financial_request_types}
use revival_integration.Lifecycle.State.{EncumbranceFlags, PolicyLifecycleState}

-- `requestType != domain.RequestTypeDeathClaim`
abbrev is_death_claim : RequestType → Bool
is_death_claim RequestType.death_claim = true
is_death_claim _ = false

abbrev admit : Bool × String
admit = (true, "")

-- `return false, fmt.Sprintf(before + "%s" + after, status)`
abbrev refuse : String → Status → String → Bool × String
refuse before status after = (false, before <> (status_text status <> after))

-- The `switch` on the request type; the last clause is its `default`.
type_gate : RequestType → Status → EncumbranceFlags → Bool × String
unfolding status_eq is_terminal
type_gate RequestType.surrender st enc =
    if status_eq st Status.active
      || status_eq st Status.void_lapse
      || status_eq st Status.inactive_lapse
      || status_eq st Status.active_lapse
      || status_eq st Status.paid_up
    then admit
    else refuse "surrender not allowed in status " st " [BR-PM-011]"
type_gate RequestType.loan st enc =
    if not (status_eq st Status.active)
    then refuse "loan not allowed in status " st " [BR-PM-012]"
    else if enc.has_active_loan
    then (false, "active loan already exists [BR-PM-012]")
    else admit
type_gate RequestType.loan_repayment st enc =
    if not (
      status_eq st Status.active
      || status_eq st Status.assigned_to_president
      || status_eq st Status.pending_auto_surrender)
    then refuse "loan repayment not allowed in status " st " [BR-PM-013]"
    else if not enc.has_active_loan
    then (false, "no active loan to repay [BR-PM-013]")
    else admit
type_gate RequestType.revival st enc =
    if status_eq st Status.void_lapse
      || status_eq st Status.inactive_lapse
      || status_eq st Status.active_lapse
    then admit
    else refuse "revival not allowed in status " st " [BR-PM-014]"
type_gate RequestType.death_claim st enc =
    if is_terminal st then refuse "death claim not allowed in terminal status " st "" else admit
type_gate RequestType.maturity_claim st enc =
    if status_eq st Status.active || status_eq st Status.pending_maturity
    then admit
    else refuse "maturity claim not allowed in status " st " [BR-PM-015]"
type_gate RequestType.survival_benefit st enc =
    if status_eq st Status.active
    then admit
    else refuse "survival benefit not allowed in status " st " [BR-PM-016]"
type_gate RequestType.commutation st enc =
    if status_eq st Status.active
    then admit
    else refuse "commutation not allowed in status " st " [BR-PM-017]"
type_gate RequestType.conversion st enc =
    if status_eq st Status.active
    then admit
    else refuse "conversion not allowed in status " st " [BR-PM-018]"
type_gate RequestType.flc st enc =
    if status_eq st Status.free_look_active
    then admit
    else (false, "FLC only allowed in FREE_LOOK_ACTIVE status [BR-PM-019]")
type_gate RequestType.paid_up st enc =
    if status_eq st Status.active || status_eq st Status.active_lapse
    then admit
    else refuse "voluntary paid-up not allowed in status " st " [BR-PM-060]"
type_gate RequestType.forced_surrender st enc =
    if status_eq st Status.assigned_to_president || status_eq st Status.pending_auto_surrender
    then admit
    else refuse "forced surrender not allowed in status " st ""
type_gate _ st enc =
    if is_terminal st then refuse "NFR not allowed in terminal status " st " [BR-PM-023]" else admit

unfoldable pub is_state_eligible : RequestType → Status → EncumbranceFlags → Bool × String
unfolding type_gate
is_state_eligible request_type status enc =
    if status_eq status Status.suspended && not (is_death_claim request_type)
    then (false, "policy is suspended — only death claims accepted [BR-PM-110]")
    else type_gate request_type status enc

-- LOAN_REPAYMENT and DEATH_CLAIM take no lock; of the others, the keys of `FinancialRequestTypes`.
unfoldable pub requires_financial_lock : RequestType → Bool
unfolding financial_request_types
requires_financial_lock RequestType.loan_repayment = false
requires_financial_lock RequestType.death_claim = false
requires_financial_lock request_type = is_some (financial_request_types request_type)

-- `unset` is the empty string: no transition before routing.
unfoldable pub pre_route_status : RequestType → Status
pre_route_status RequestType.surrender = Status.pending_surrender
pre_route_status RequestType.revival = Status.revival_pending
pre_route_status RequestType.death_claim = Status.death_claim_intimated
pre_route_status RequestType.forced_surrender = Status.pending_auto_surrender
pre_route_status _ = Status.unset

pub lock_reason : RequestType → String
lock_reason holder = "financial lock held by " <> (request_type_text holder <> " [BR-PM-030]")

pub record IsRequestEligibleResult : Type 0 where
  pub eligible : Bool
  pub reason : String
  pub lock_conflict : Bool

-- The query handler `is-request-eligible`.
unfoldable pub is_request_eligible : RequestType → PolicyLifecycleState → IsRequestEligibleResult
unfolding lock_reason
is_request_eligible request_type state =
    let (eligible, reason) =
      is_state_eligible request_type state.current_status state.encumbrances in
    let gate : IsRequestEligibleResult = record {
      eligible = eligible;
      reason = reason;
      lock_conflict = false;
    } in
    elim state.active_lock [
      | none ↦ gate
      | some lock ↦
          if eligible && requires_financial_lock request_type
          then record {
            eligible = false;
            reason = lock_reason lock.request_type;
            lock_conflict = true;
          }
          else gate
    ]
