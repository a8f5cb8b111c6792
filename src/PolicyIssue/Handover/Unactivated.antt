-- ===== src/PolicyIssue/Handover/Unactivated.antt =====
-- The policy that policy management keeps for the message of StartPMLifecycleActivity.
use revival_integration.Base.{◌≡◌, refl, Bool, true, false, Option, none, some, List, [], ◌∷◌, any}
use revival_integration.Domain.Status.{Status, status_eq}
use revival_integration.Domain.Request.{RequestType}
use revival_integration.Lifecycle.State.{PolicyLifecycleState}
use revival_integration.Lifecycle.Signal.{Signal}
use revival_integration.Lifecycle.World.{Env}
use revival_integration.Lifecycle.Gate.{is_state_eligible, is_request_eligible}
use revival_integration.Lifecycle.Run.{Input, policy_lifecycle_workflow}
use revival_integration.Lifecycle.Run.Locks.{final_state}
use revival_integration.Lifecycle.Run.Unset.{
  IsBlank, only_creations, policy_lifecycle_workflow-IsBlank,
}
use revival_integration.PolicyIssue.Handover.{PmCreatedSignal, created_signal, initial_state}

-- The message arrives, the first time or again, or a timer fires.
abbrev pub arrivals : List (Option PmCreatedSignal) → List Input
arrivals [] = []
arrivals (some m ∷ rest) = Input.signal (Signal.policy_created (created_signal m)) ∷ arrivals rest
arrivals (none ∷ rest) = Input.timer ∷ arrivals rest

arrivals-only_creations :
    (reports : List (Option PmCreatedSignal)) → only_creations (arrivals reports) ≡ true
arrivals-only_creations [] = refl
arrivals-only_creations (some m ∷ rest) = arrivals-only_creations rest
arrivals-only_creations (none ∷ rest) = arrivals-only_creations rest

-- The requests that depend on what the policy's status offers.
abbrev pub status_bound : List RequestType
status_bound =
    RequestType.surrender ∷ RequestType.loan ∷ RequestType.loan_repayment ∷ RequestType.revival
    ∷ RequestType.maturity_claim ∷ RequestType.survival_benefit ∷ RequestType.commutation
    ∷ RequestType.conversion ∷ RequestType.flc ∷ RequestType.paid_up ∷ RequestType.forced_surrender
    ∷ []

abbrev pub is_admitted : PolicyLifecycleState → RequestType → Bool
is_admitted st t = (is_request_eligible t st).eligible

blank_admits_none :
    (st : PolicyLifecycleState) → IsBlank st → any (is_admitted st) status_bound ≡ false
unfolding is_request_eligible is_state_eligible status_eq
blank_admits_none st (s, l) = rw (s, l) refl

-- A policy that policy management knows from the policy issue service alone has no status, however
-- often the message arrives and whatever the activities answer: the end of the free-look period
-- does not make it active, and the query is-request-eligible refuses every request that depends on
-- its status, the cancellation in the free-look period included.
pub reported_policy_stays_blank :
    (env : Env) (m : PmCreatedSignal) (reports : List (Option PmCreatedSignal))
    → let st = final_state (policy_lifecycle_workflow env (arrivals reports) (initial_state m)) in
      (st.current_status ≡ Status.unset) × (any (is_admitted st) status_bound ≡ false)
unfolding initial_state
reported_policy_stays_blank env m reports =
    let blank =
      policy_lifecycle_workflow-IsBlank env (arrivals reports) (initial_state m)
        (arrivals-only_creations reports) (refl, refl) in
    (blank.0, blank_admits_none _ blank)
