-- ===== src/PolicyIssue/Tests/Reports.antt =====
-- Tests of the theorems on the report of an issued policy to policy management.
use revival_integration.Base.{
  ◌+◌, ◌*◌, String, ◌-◌, ◌≡◌, refl, true, false, length, ◌≤◌, none, some, List, [], ◌∷◌, any, keep,
  arith, pos,
}
use revival_integration.Stdlib.Duration.{day, minute}
use revival_integration.Domain.Status.{Status}
use revival_integration.Lifecycle.Signal.{Signal}
use revival_integration.Lifecycle.Run.{policy_lifecycle_workflow}
use revival_integration.Lifecycle.Run.Locks.{final_state}
use revival_integration.Lifecycle.Step.{handle_signal}
use revival_integration.Lifecycle.Tests.{env, world_of}
use revival_integration.PolicyIssue.Handover.{PmCreatedSignal, created_signal, initial_state}
use revival_integration.PolicyIssue.Handover.Unactivated.{
  arrivals, status_bound, is_admitted, reported_policy_stays_blank,
}
use revival_integration.PolicyIssue.Handover.Repeated.{second_report_ignored}
use revival_integration.PolicyIssue.Reconciliation.{
  PmSignalStatus, SignalRow, DeliveryEnv, is_unsignalled, by_issue_date, find_unsignalled_policies,
  reconciliation_input, pm_signal_reconciliation_workflow,
}
use revival_integration.PolicyIssue.Reconciliation.Sorted.{in_order}
use revival_integration.PolicyIssue.Reconciliation.Selected.{
  signalled, pm_signal_reconciliation_workflow-signalled,
}
use revival_integration.PolicyIssue.Reconciliation.Delivered.{
  pm_signal_reconciliation_workflow-delivered,
}

abbrev message : PmCreatedSignal
message = record { policy_number = "PLI-1"; policy_type = "PLI"; issued_at = 736985 * day }

reported_policy_stays_blank_example :
    let st = final_state (
      policy_lifecycle_workflow env
        (arrivals (some message ∷ none ∷ some message ∷ []))
        (initial_state message)) in
    (st.current_status ≡ Status.unset) × (any (is_admitted st) status_bound ≡ false)
reported_policy_stays_blank_example =
    reported_policy_stays_blank env message (some message ∷ none ∷ some message ∷ [])

second_report_ignored_example :
    let w =
      (handle_signal env
        (Signal.policy_created (created_signal message))
        (world_of (initial_state message))).0 in
    handle_signal env (Signal.policy_created (created_signal message)) w ≡ (w, false)
second_report_ignored_example =
    second_report_ignored env message message (world_of (initial_state message)) {id = pos 77} refl
      refl

abbrev answers : DeliveryEnv
answers = record {
  clock = λ n. 737000 * day + n;
  store_error = λ _. none;
  signal_error = λ _. none;
}

abbrev row : String → PmSignalStatus → SignalRow
row number status = record {
  policy_number = number;
  policy_type = "PLI";
  policy_issue_date = 736999 * day;
  pm_signal_status = status;
  pm_signal_attempts = 2;
  pm_signal_sent_at = none;
  pm_plw_workflow_id = none;
  pm_signal_last_error = none;
}

-- One failed, one sent, one that waits since yesterday, before the first.
abbrev issued : List SignalRow
issued =
    record (row "PLI-1" PmSignalStatus.failed) { policy_issue_date = 736999 * day + 1 }
    ∷ row "PLI-2" PmSignalStatus.sent
    ∷ row "PLI-3" PmSignalStatus.pending
    ∷ []

pm_signal_reconciliation_workflow-signalled_example :
    let out =
      pm_signal_reconciliation_workflow answers
        (record { rows = issued; calls = []; accepted = [] }) in
    let selected = find_unsignalled_policies reconciliation_input (answers.clock 0) issued in
    (out.1 ≡ none)
    × (signalled out.0.calls ≡ "plw-PLI-1" ∷ "plw-PLI-3" ∷ [])
    × (in_order selected ≡ true)
    × (length selected ≤ 100)
unfolding is_unsignalled by_issue_date
pm_signal_reconciliation_workflow-signalled_example =
    pm_signal_reconciliation_workflow-signalled answers issued refl

pm_signal_reconciliation_workflow-delivered_example :
    let out =
      pm_signal_reconciliation_workflow answers
        (record { rows = issued; calls = []; accepted = [] }) in
    (signalled out.0.calls ≡ "plw-PLI-1" ∷ "plw-PLI-3" ∷ [])
    × (out.0.accepted ≡ "plw-PLI-1" ∷ "plw-PLI-3" ∷ [])
    × (keep (is_unsignalled (737000 * day - 30 * minute) 20) out.0.rows ≡ [])
unfolding is_unsignalled by_issue_date
pm_signal_reconciliation_workflow-delivered_example =
    pm_signal_reconciliation_workflow-delivered answers (λ _. refl) (λ _. refl) issued (omega arith)
      refl
