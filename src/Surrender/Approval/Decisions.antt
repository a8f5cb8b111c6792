-- ===== src/Surrender/Approval/Decisions.antt =====
-- How ApprovalWorkflow comes to its decision.
use mathlib.Core.Path.{subst}
use text.Mathlib.Text.{◌==◌ as str_eq}
use revival_integration.Base.{
  at_most_int, ℕ, zero, suc, ◌+◌, ◌<◌, ◌≡◌, ◌&&◌, ◌⊎◌, inl, inr, refl, Bool, true, false, Option,
  none, some, List, [], ◌∷◌, String, ℤ, arith, length, leb,
}
use revival_integration.Revival.Case.{Answer}
use revival_integration.Surrender.Approval.{
  ApprovalEvent, ApprovalCall, ApprovalEnv, ApprovalWorkflowInput, ApprovalWorkflowResult,
  ApprovalDecision, ApprovalOutcome, Waited, done, decision_of, await_decision, max_escalations,
  approval_workflow, approve_by_value, approval_limit, approve_by_hand, after_wait,
  process_decision, empty_result,
}

-- The first decision that is not empty comes behind so many rounds without one.
pub data FirstDecision : List ApprovalEvent → String → ℕ → Type 0 where
  given :
      {e : ApprovalEvent} {es : List ApprovalEvent}
      → str_eq (decision_of e) "" ≡ false
      → FirstDecision (e ∷ es) (decision_of e) 0
  later :
      {e : ApprovalEvent} {es : List ApprovalEvent} {d : String} {n : ℕ}
      → str_eq (decision_of e) "" ≡ true
      → FirstDecision es d n
      → FirstDecision (e ∷ es) d (suc n)

-- There are so many rounds, and none of the first so many brings a decision.
abbrev pub silent_rounds : ℕ → List ApprovalEvent → Bool
silent_rounds zero es = true
silent_rounds (suc n) [] = false
silent_rounds (suc n) (e ∷ es) = str_eq (decision_of e) "" && silent_rounds n es

-- What a wait that starts after so many escalations comes to.
IsWaited : List ApprovalEvent → ℕ → Waited → Type 0
IsWaited es k (Waited.decided d n _) =
    (m : ℕ) × (n ≡ k + m) × (n < max_escalations) × FirstDecision es d m
IsWaited es k (Waited.gave_up n _) =
    (n ≡ max_escalations) × (m : ℕ) × (max_escalations ≡ k + m) × (silent_rounds m es ≡ true)
IsWaited es k (Waited.still_open _) = k + length es < max_escalations

bool_cases : (b : Bool) → (b ≡ true) ⊎ (b ≡ false)
bool_cases true = inl refl
bool_cases false = inr refl

sooner :
    (e : ApprovalEvent) (es : List ApprovalEvent) (k : ℕ) (w : Waited)
    → str_eq (decision_of e) "" ≡ true
    → IsWaited es (suc k) w
    → IsWaited (e ∷ es) k w
unfolding IsWaited
sooner e es k (Waited.decided d n _) s (m, total, few, first) =
    (suc m, omega arith, few, FirstDecision.later s first)
sooner e es k (Waited.gave_up n _) s (all, m, total, silent) =
    (all, suc m, omega arith, rw (s) silent)
sooner e es k (Waited.still_open _) s few = omega arith

at_last :
    (k : ℕ) → leb max_escalations (suc k) ≡ true → k < max_escalations → suc k ≡ max_escalations
at_last k t b = ground arith

not_yet : (k : ℕ) → leb max_escalations (suc k) ≡ false → suc k < max_escalations
not_yet k t = ground arith

await_decision-IsWaited :
    (task : String) (es : List ApprovalEvent) (k hours : ℕ) (calls : List ApprovalCall)
    → k < max_escalations
    → IsWaited es k (await_decision task es k hours calls)
unfolding await_decision IsWaited
await_decision-IsWaited task [] k hours calls b = omega arith
await_decision-IsWaited task (e ∷ es) k hours calls b =
    elim (bool_cases (str_eq (decision_of e) "")) [
      | inl silent ↦ elim (bool_cases (leb max_escalations (suc k))) [
        | inl last ↦
            let all = at_last k last b in rw (silent, last) (all, 1, omega arith, rw (silent) refl)
        | inr more ↦
            rw (silent, more)
              (sooner e es k _ silent
                (await_decision-IsWaited task es (suc k) 12 _ (not_yet k more)))
      ]
      | inr spoken ↦ rw spoken (0, omega arith, b, FirstDecision.given spoken)
    ]

-- APPROVED and TIMEOUT.
abbrev is_verdict : ApprovalDecision → Bool
is_verdict ApprovalDecision.approved = true
is_verdict ApprovalDecision.timed_out = true
is_verdict _ = false

-- What the workflow's end, or its wait, says of the events.
pub IsConcluded : List ApprovalEvent → ApprovalOutcome → Type 0
IsConcluded es (ApprovalOutcome.pending _) = length es < max_escalations
IsConcluded es (ApprovalOutcome.done r _ _) =
    (r.decision ≡ ApprovalDecision.approved
      → (d : String) × FirstDecision es d r.escalation_count
        × (str_eq d "APPROVED" ≡ true)
        × (r.escalation_count < max_escalations))
    × (r.decision ≡ ApprovalDecision.timed_out
        → (r.escalation_count ≡ max_escalations) × (silent_rounds max_escalations es ≡ true))

module _ (env : ApprovalEnv) (input : ApprovalWorkflowInput) (es : List ApprovalEvent) where
  process_decision-IsConcluded :
      (task d : String) (n : ℕ) (calls : List ApprovalCall)
      → n < max_escalations
      → FirstDecision es d n
      → IsConcluded es (process_decision env input task d n calls)
  unfolding IsConcluded process_decision empty_result
  process_decision-IsConcluded task d n calls few first = elim (bool_cases (str_eq d "APPROVED")) [
    | inl text ↦ approved_by text (env.processed_by (suc (length calls))) refl
    | inr otherwise ↦ rw otherwise ((λ h. absurd (ground arith)), (λ h. absurd (ground arith)))
  ]
    where
      approved_by :
          str_eq d "APPROVED" ≡ true
          → (a : Answer String) → env.processed_by (suc (length calls)) ≡ a
          → IsConcluded es (process_decision env input task d n calls)
      approved_by text (Answer.failed err) e =
          rw (text, e) ((λ h. absurd (ground arith)), (λ h. absurd (ground arith)))
      approved_by text (Answer.result name) e =
          rw (text, e) ((λ _. (d, first, text, few)), (λ h. absurd (ground arith)))

  after_wait-IsConcluded :
      (task : String) (w : Waited) → IsWaited es 0 w → IsConcluded es (after_wait env input task w)
  unfolding IsWaited IsConcluded after_wait empty_result
  after_wait-IsConcluded task (Waited.decided d n calls) (m, total, few, first) =
      process_decision-IsConcluded task d n calls few
        (subst (FirstDecision es d) (omega arith) first)
  after_wait-IsConcluded task (Waited.gave_up n calls) (all, m, total, silent) = (
    (λ h. absurd (ground arith)),
    (λ _. (
      all,
      subst (λ j. silent_rounds j es ≡ true) {y = max_escalations} (ground (arith, total)) silent,
    )),
  )
  after_wait-IsConcluded task (Waited.still_open calls) few = omega arith

  undecided-IsConcluded :
      (r : ApprovalWorkflowResult) (err : Option String) (calls : List ApprovalCall)
      → is_verdict r.decision ≡ false
      → IsConcluded es (done r err calls)
  unfolding IsConcluded
  undecided-IsConcluded r err calls h = ((λ v. absurd (ground arith)), (λ v. absurd (ground arith)))

  approve_by_hand-IsConcluded :
      (calls : List ApprovalCall) (a : Answer String)
      → env.task_created (suc (length calls)) ≡ a
      → IsConcluded es (approve_by_hand env input es calls)
  unfolding approve_by_hand empty_result
  approve_by_hand-IsConcluded calls (Answer.failed err) e =
      rw (approve_by_hand, e) (undecided-IsConcluded _ _ _ refl)
  approve_by_hand-IsConcluded calls (Answer.result task) e =
      rw (approve_by_hand, e)
        (after_wait-IsConcluded task _ (await_decision-IsWaited task es 0 24 _ (omega arith)))

  approve_by_value-IsConcluded :
      (value : ℤ) (calls : List ApprovalCall) (a : Option String)
      → env.auto_approval_error (suc (length calls)) ≡ a
      → IsConcluded es (approve_by_value env input es value calls)
  unfolding approve_by_value empty_result
  approve_by_value-IsConcluded value calls a e =
      elim (bool_cases (at_most_int value (approval_limit input))) [
        | inl small ↦ automatic small a e
        | inr large ↦ rw large (approve_by_hand-IsConcluded calls _ refl)
      ]
    where
      automatic :
          at_most_int value (approval_limit input) ≡ true
          → (b : Option String) → env.auto_approval_error (suc (length calls)) ≡ b
          → IsConcluded es (approve_by_value env input es value calls)
      automatic small none f = rw (small, f) (undecided-IsConcluded _ _ _ refl)
      automatic small (some err) f = rw (small, f) (approve_by_hand-IsConcluded _ _ refl)

  -- The workflow waits only while fewer than three rounds have passed. It approves a request by hand
  -- only where the first decision that is not empty is APPROVED and comes after fewer than three
  -- rounds without one, which it counts as escalations; it times out only where none of the first three
  -- rounds brings a decision that is not empty.
  pub approval_workflow-IsConcluded : IsConcluded es (approval_workflow env input es)
  unfolding approval_workflow empty_result
  approval_workflow-IsConcluded = from (env.details 1) refl
    where
      from : (a : Answer ℤ) → env.details 1 ≡ a → IsConcluded es (approval_workflow env input es)
      from (Answer.failed err) e = rw (approval_workflow, e) (undecided-IsConcluded _ _ _ refl)
      from (Answer.result value) e =
          rw (approval_workflow, e) (approve_by_value-IsConcluded value _ _ refl)
