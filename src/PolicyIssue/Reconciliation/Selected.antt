-- ===== src/PolicyIssue/Reconciliation/Selected.antt =====
-- For which policies a run of PMSignalReconciliationWorkflow calls SignalWithStartWorkflow.
use text.Mathlib.Text.{◌==◌ as str_eq}
use mathlib.Core.List.{map}
use revival_integration.Base.{
  ℕ, zero, ◌≤◌, true, take, ◌≡◌, refl, ◌∙◌, ap, Bool-cases, inl, inr, none, suc, length, List, [],
  ◌∷◌, String, ◌<>◌, if◌then◌else◌, arith,
}
use revival_integration.Revival.Case.{Answer}
use revival_integration.PolicyIssue.Reconciliation.Sorted.{in_order, by_issue_date-take}
use revival_integration.PolicyIssue.Reconciliation.{
  SignalRow, StartPmLifecycleInput, LifecycleCall, DeliveryEnv, Delivery, asked,
  mark_pm_signal_sent, after_signalling, start_pm_lifecycle_activity, reconciliation_input,
  target_of, find_once, find_unsignalled_policies, find_unsignalled_policies_activity, reconcile,
  after_query, pm_signal_reconciliation_workflow,
}

-- The workflows for which SignalWithStartWorkflow was called, the newest first.
abbrev pub signalled : List LifecycleCall → List String
signalled [] = []
signalled (LifecycleCall.signal_with_start workflow_id _ ∷ calls) = workflow_id ∷ signalled calls
signalled (_ ∷ calls) = signalled calls

-- The workflows of the policies that have a number.
abbrev pub workflow_ids : List StartPmLifecycleInput → List String
workflow_ids [] = []
workflow_ids (t ∷ ts) =
    if str_eq t.policy_number ""
    then workflow_ids ts
    else ("plw-" <> t.policy_number) ∷ workflow_ids ts

-- The first list, the other way round, before the second.
abbrev pub turned : List String → List String → List String
turned [] ys = ys
turned (x ∷ xs) ys = turned xs (x ∷ ys)

length-take_most : (n : ℕ) (rows : List SignalRow) → length (take n rows) ≤ n
length-take_most zero rows = omega arith
length-take_most (suc n) [] = omega arith
length-take_most (suc n) (row ∷ rows) = let rest = length-take_most n rows in omega arith

module _ (env : DeliveryEnv) where
  after_signalling-signalled :
      (number workflow_id : String) (d : Delivery)
      → signalled (after_signalling env number workflow_id d).0.calls ≡ signalled d.calls
  unfolding after_signalling mark_pm_signal_sent
  after_signalling-signalled number workflow_id d = ground arith

  start-signalled :
      (t : StartPmLifecycleInput) (d : Delivery)
      → signalled (start_pm_lifecycle_activity env t d).0.calls ≡ (
          if str_eq t.policy_number ""
          then signalled d.calls
          else ("plw-" <> t.policy_number) ∷ signalled d.calls)
  unfolding start_pm_lifecycle_activity
  start-signalled t d = grind (arith, after_signalling-signalled)

  pub reconcile-signalled :
      (ts : List StartPmLifecycleInput) (d : Delivery)
      → signalled (reconcile env ts d).calls ≡ turned (workflow_ids ts) (signalled d.calls)
  unfolding reconcile
  reconcile-signalled [] d = refl
  reconcile-signalled (t ∷ ts) d =
      let rest = reconcile-signalled ts (start_pm_lifecycle_activity env t d).0 in
      elim (Bool-cases (str_eq t.policy_number "")) [
        | inl e ↦ rw (e) (rest ∙ rw (start-signalled t d, e) refl)
        | inr e ↦ rw (e) (rest ∙ rw (start-signalled t d, e) refl)
      ]

  found_once :
      (d : Delivery)
      → env.store_error (suc (length d.calls)) ≡ none
      → find_unsignalled_policies_activity env 2 reconciliation_input d ≡ (
        asked LifecycleCall.find_unsignalled d,
        Answer.result (
            map target_of
              (find_unsignalled_policies reconciliation_input (env.clock (length d.calls)) d.rows)),
      )
  unfolding find_unsignalled_policies_activity
  found_once d ok = rw (ok, find_once) refl

  -- A query that succeeds at the first attempt.
  pub found :
      (d : Delivery)
      → env.store_error (suc (length d.calls)) ≡ none
      → pm_signal_reconciliation_workflow env d ≡ (
        reconcile env
            (map target_of
              (find_unsignalled_policies reconciliation_input (env.clock (length d.calls)) d.rows))
            (asked LifecycleCall.find_unsignalled d),
        none,
      )
  unfolding pm_signal_reconciliation_workflow
  found d ok = ap (after_query env) (found_once d ok)

  -- Where the query succeeds at its first attempt, a run returns no error, whatever fails after it. It
  -- asks Temporal to signal the lifecycle workflow of each policy that the query returns, once for
  -- each row that has a policy number, in the order of the rows, and no other workflow. The rows are
  -- those that wait, in the order of their issue dates, and at most 100 of them.
  pub pm_signal_reconciliation_workflow-signalled :
      (rows : List SignalRow)
      → env.store_error 1 ≡ none
      → let out =
          pm_signal_reconciliation_workflow env
            (record { rows = rows; calls = []; accepted = [] }) in
        let selected = find_unsignalled_policies reconciliation_input (env.clock 0) rows in
        (out.1 ≡ none)
        × (signalled out.0.calls ≡ turned (workflow_ids (map target_of selected)) [])
        × (in_order selected ≡ true)
        × (length selected ≤ 100)
  pm_signal_reconciliation_workflow-signalled rows ok =
      rw (found (record { rows = rows; calls = []; accepted = [] }) ok)
        (refl, reconcile-signalled _ _, by_issue_date-take 100 _, length-take_most 100 _)
