-- ===== src/PolicyIssue/Reconciliation.antt =====
-- StartPMLifecycleActivity and FindUnsignalledPoliciesActivity of
-- workflows/activities/pm_lifecycle_activities.go, the statements of
-- repo/postgres/proposal_repository.go that they run, and PMSignalReconciliationWorkflow of
-- workflows/pm_reconciliation_workflow.go.
pub mod Sorted
pub mod Selected
pub mod Delivered
use text.Mathlib.Text.{◌==◌ as str_eq}
use mathlib.Core.List.{map}
use revival_integration.Base.{
  ℕ, zero, suc, ◌-◌, ◌*◌, Bool, true, false, ◌&&◌, Option, none, some, List, [], ◌∷◌, ℤ, pos,
  negsuc, String, ◌<>◌, ltb, keep, take, length, if◌then◌else◌,
}
use revival_integration.Stdlib.Duration.{Time, minute}
use revival_integration.Revival.Case.{Answer}
use revival_integration.PolicyIssue.Handover.{PmCreatedSignal}

-- pm_signal_status, by its check constraint.
pub data PmSignalStatus : Type 0 where
  pending sent failed : PmSignalStatus

-- The columns of proposal_issuance, with the proposal's policy_type, that the statements name.
pub record SignalRow : Type 0 where
  pub policy_number : String
  pub policy_type : String
  pub policy_issue_date : Time
  pub pm_signal_status : PmSignalStatus
  pub pm_signal_attempts : ℕ
  pub pm_signal_sent_at : Option Time
  pub pm_plw_workflow_id : Option String
  pub pm_signal_last_error : Option String

pub record StartPmLifecycleInput : Type 0 where
  pub policy_number : String
  pub policy_type : String

pub data LifecycleCall : Type 0 where
  find_unsignalled : LifecycleCall
  increment_attempts : String → LifecycleCall
  signal_with_start : String → PmCreatedSignal → LifecycleCall
  mark_failed : String → String → LifecycleCall
  mark_sent : String → String → LifecycleCall

-- By what was done before: the time, the error of a statement, which then changes nothing, and
-- the error of SignalWithStartWorkflow.
pub record DeliveryEnv : Type 0 where
  pub clock : ℕ → Time
  pub store_error : ℕ → Option String
  pub signal_error : ℕ → Option String

pub record Delivery : Type 0 where
  pub rows : List SignalRow
  pub calls : List LifecycleCall
  -- The workflows for which SignalWithStartWorkflow returned no error, the newest first
  pub accepted : List String

abbrev pub asked : LifecycleCall → Delivery → Delivery
asked call d = record d { calls = call ∷ d.calls }

-- The rows of one policy, changed.
abbrev pub on_policy : String → (SignalRow → SignalRow) → List SignalRow → List SignalRow
on_policy number change = map (λ row. if str_eq row.policy_number number then change row else row)

abbrev pub rows_of : String → List SignalRow → List SignalRow
rows_of number = keep (λ row. str_eq row.policy_number number)

abbrev pub increment : SignalRow → SignalRow
increment row = record row { pm_signal_attempts = suc row.pm_signal_attempts }

abbrev pub fail_with : String → SignalRow → SignalRow
fail_with err row = record row {
  pm_signal_status = PmSignalStatus.failed;
  pm_signal_last_error = some err;
}

abbrev pub send_at : Time → String → SignalRow → SignalRow
send_at at workflow_id row = record row {
  pm_signal_status = PmSignalStatus.sent;
  pm_signal_sent_at = some at;
  pm_plw_workflow_id = some workflow_id;
  pm_signal_last_error = none;
}

module _ (env : DeliveryEnv) where
  -- One UPDATE, with its error.
  abbrev pub update_rows :
      LifecycleCall → String → (SignalRow → SignalRow) → Delivery → Delivery × Option String
  update_rows call number change d = elim (env.store_error (length (asked call d).calls)) [
    | some err ↦ (asked call d, some err)
    | none ↦ (record (asked call d) { rows = on_policy number change d.rows }, none)
  ]

  unfoldable pub mark_pm_signal_sent : String → String → Delivery → Delivery × Option String
  mark_pm_signal_sent number workflow_id d =
      let at = env.clock (length d.calls) in
      let (marked, err) =
        update_rows (LifecycleCall.mark_sent number workflow_id) number (send_at at workflow_id)
          d in
      elim err [
        | some e ↦ (marked, some e)
        | none ↦ elim (rows_of number d.rows) [
          | [] ↦ (marked, some ("MarkPMSignalSent: no issuance row found for policy " <> number))
          | _ ∷ _ ↦ (marked, none)
        ]
      ]

  -- What follows SignalWithStartWorkflow. The error of the record of a failure is dropped.
  unfoldable pub after_signalling : String → String → Delivery → Delivery × Option String
  after_signalling number workflow_id d = elim (env.signal_error (length d.calls)) [
    | some err ↦ (
      (update_rows (LifecycleCall.mark_failed number err) number (fail_with err) d).0,
      some ("SignalWithStart for " <> (workflow_id <> (" failed: " <> err))),
    )
    | none ↦
        mark_pm_signal_sent number workflow_id (record d { accepted = workflow_id ∷ d.accepted })
  ]

  -- One attempt. The error of the count is dropped.
  unfoldable pub start_pm_lifecycle_activity :
      StartPmLifecycleInput → Delivery → Delivery × Option String
  start_pm_lifecycle_activity input d =
      let number = input.policy_number in
      let workflow_id = "plw-" <> number in
      let counted = (update_rows (LifecycleCall.increment_attempts number) number increment d).0 in
      let message : PmCreatedSignal = record {
        policy_number = number;
        policy_type = input.policy_type;
        issued_at = env.clock (length counted.calls);
      } in
      if str_eq number ""
      then (d, some "policy_number is required")
      else after_signalling number workflow_id
          (asked (LifecycleCall.signal_with_start workflow_id message) counted)

pub record FindUnsignalledPoliciesInput : Type 0 where
  pub grace_period_minutes : ℤ
  pub max_attempts : ℤ

abbrev positive_int_or : ℕ → ℤ → ℕ
positive_int_or default (pos zero) = default
positive_int_or default (pos (suc n)) = suc n
positive_int_or default (negsuc _) = default

abbrev pub reconciliation_input : FindUnsignalledPoliciesInput
reconciliation_input = record { grace_period_minutes = pos 30; max_attempts = pos 20 }

-- The WHERE clause.
unfoldable pub is_unsignalled : Time → ℕ → SignalRow → Bool
is_unsignalled cutoff max_attempts row =
    let waits : Bool = elim row.pm_signal_status [
      | PmSignalStatus.pending ↦ ltb row.policy_issue_date cutoff
      | PmSignalStatus.failed ↦ true
      | PmSignalStatus.sent ↦ false
    ] in
    waits && ltb row.pm_signal_attempts max_attempts

abbrev pub target_of : SignalRow → StartPmLifecycleInput
target_of row = record { policy_number = row.policy_number; policy_type = row.policy_type }

-- A row before the first that is not older.
abbrev pub insert_row : SignalRow → List SignalRow → List SignalRow
insert_row row [] = row ∷ []
insert_row row (first ∷ rows) =
    let rest = insert_row row rows in
    if ltb first.policy_issue_date row.policy_issue_date then first ∷ rest else row ∷ first ∷ rows

-- The ORDER BY clause. Rows of the same date, whose order it leaves open, stay as they stand.
unfoldable pub by_issue_date : List SignalRow → List SignalRow
by_issue_date [] = []
by_issue_date (row ∷ rows) = insert_row row (by_issue_date rows)

-- The rows that the query returns at a time; no row is older than Go's zero time.
abbrev pub find_unsignalled_policies :
    FindUnsignalledPoliciesInput → Time → List SignalRow → List SignalRow
find_unsignalled_policies input at rows = take 100 (
    by_issue_date (
      keep
        (is_unsignalled (at - positive_int_or 30 input.grace_period_minutes * minute)
          (positive_int_or 20 input.max_attempts))
        rows))

-- The next attempt is made only after a failure.
abbrev or_once_more :
    {A : Type 0} → (Delivery → Delivery × Answer A) → Delivery × Answer A → Delivery × Answer A
or_once_more next (d, Answer.result a) = (d, Answer.result a)
or_once_more next (d, Answer.failed _) = next d

module _ (env : DeliveryEnv) where
  -- One attempt.
  abbrev pub find_once :
      FindUnsignalledPoliciesInput → Delivery → Delivery × Answer (List StartPmLifecycleInput)
  find_once input d =
      let queried = asked LifecycleCall.find_unsignalled d in
      elim (env.store_error (length queried.calls)) [
        | none ↦ (
          queried,
          Answer.result
              (map target_of (find_unsignalled_policies input (env.clock (length d.calls)) d.rows)),
        )
        | some err ↦ (queried, Answer.failed ("FindUnsignalledPoliciesActivity: " <> err))
      ]

  -- With the attempts that are left after the first.
  unfoldable pub find_unsignalled_policies_activity :
      ℕ → FindUnsignalledPoliciesInput → Delivery → Delivery × Answer (List StartPmLifecycleInput)
  find_unsignalled_policies_activity zero input d = find_once input d
  find_unsignalled_policies_activity (suc n) input d =
      or_once_more (find_unsignalled_policies_activity n input) (find_once input d)

  -- An error is only logged.
  unfoldable pub reconcile : List StartPmLifecycleInput → Delivery → Delivery
  reconcile [] d = d
  reconcile (target ∷ targets) d = reconcile targets (start_pm_lifecycle_activity env target d).0

  abbrev pub after_query : Delivery × Answer (List StartPmLifecycleInput) → Delivery × Option String
  after_query (d, Answer.failed err) =
      (d, some ("PMSignalReconciliationWorkflow: failed to find targets: " <> err))
  after_query (d, Answer.result targets) = (reconcile targets d, none)

  -- The activity has three attempts at the query; each policy has one.
  unfoldable pub pm_signal_reconciliation_workflow : Delivery → Delivery × Option String
  pm_signal_reconciliation_workflow d =
      after_query (find_unsignalled_policies_activity 2 reconciliation_input d)
