-- ===== src/Surrender/Forced.antt =====
-- ForcedSurrenderWorkflow and PaymentWindowMonitorWorkflow of
-- temporal/workflows/forced_surrender_workflow.go. The counts that the activities report are
-- natural numbers.
pub mod Batches
use revival_integration.Base.{
  ℕ, zero, suc, ◌+◌, Option, none, some, List, [], ◌∷◌, String, ◌<>◌, ℤ, pos, negsuc, ◌==◌, length,
  take, drop, if◌then◌else◌,
}
use revival_integration.Stdlib.Duration.{Time}
use revival_integration.Revival.Case.{Answer}

pub record ForcedSurrenderWorkflowInput : Type 0 where
  pub evaluation_date : String
  pub batch_size : ℤ

pub record ForcedSurrenderWorkflowResult : Type 0 where
  pub evaluation_date : String
  pub policies_evaluated : ℕ
  pub reminders_created : ℕ
  pub surrenders_initiated : ℕ
  pub completed_at : Time

-- What the workflows do, the newest first, over the rows that the activities pass along.
pub data ForcedCall (Policy Window : Type 0) : Type 0 where
  identify_eligible_policies : String → ℕ → ForcedCall Policy Window
  create_reminders_batch : List Policy → ForcedCall Policy Window
  start_window_monitor : String → String → ForcedCall Policy Window
  check_expired_payment_windows : String → ForcedCall Policy Window
  initiate_forced_surrenders : List Window → ForcedCall Policy Window
  sleep_a_day : ForcedCall Policy Window

-- The clock and the answers, by what was done before.
pub record ForcedEnv (Policy Window : Type 0) : Type 0 where
  pub clock : ℕ → Time
  pub eligible : ℕ → Answer (List Policy)
  pub reminders : ℕ → Answer ℕ
  pub expired : ℕ → Answer (List Window)
  pub initiated : ℕ → Answer ℕ

pub data ForcedOutcome (Policy Window : Type 0) : Type 0 where
  evaluated :
      ForcedSurrenderWorkflowResult → List (ForcedCall Policy Window) → ForcedOutcome Policy Window
  not_evaluated :
      String
      → ForcedSurrenderWorkflowResult
      → List (ForcedCall Policy Window)
      → ForcedOutcome Policy Window

-- batchSize
unfoldable pub reminder_batch_size : ℤ → ℕ
reminder_batch_size (pos zero) = 50
reminder_batch_size (pos (suc n)) = suc n
reminder_batch_size (negsuc _) = 50

module _ {Policy Window : Type 0} (env : ForcedEnv Policy Window) where
  -- The loop over the batches, on fuel: the reminders created, and what was done.
  unfoldable pub create_reminders :
      ℕ
      → ℕ
      → List Policy
      → ℕ
      → List (ForcedCall Policy Window)
      → ℕ × List (ForcedCall Policy Window)
  create_reminders zero size policies total calls = (total, calls)
  create_reminders (suc fuel) size [] total calls = (total, calls)
  create_reminders (suc fuel) size (p ∷ ps) total calls =
      let asked = ForcedCall.create_reminders_batch (take size (p ∷ ps)) ∷ calls in
      let created : ℕ = elim (env.reminders (length asked)) [
        | Answer.failed _ ↦ 0
        | Answer.result n ↦ n
      ] in
      create_reminders fuel size (drop size (p ∷ ps)) (total + created) asked

  -- The surrenders of expired windows; an error is only logged.
  unfoldable pub initiate_expired :
      List Window → List (ForcedCall Policy Window) → ℕ × List (ForcedCall Policy Window)
  initiate_expired [] calls = (0, calls)
  initiate_expired (w ∷ ws) calls =
      let asked = ForcedCall.initiate_forced_surrenders (w ∷ ws) ∷ calls in
      elim (env.initiated (length asked)) [
        | Answer.failed _ ↦ (0, asked)
        | Answer.result n ↦ (n, asked)
      ]

  -- The check as of a date, and the surrenders that follow it.
  unfoldable pub check_windows :
      String → List (ForcedCall Policy Window) → ℕ × List (ForcedCall Policy Window)
  check_windows date calls =
      let asked = ForcedCall.check_expired_payment_windows date ∷ calls in
      elim (env.expired (length asked)) [
        | Answer.failed _ ↦ (0, asked)
        | Answer.result windows ↦ initiate_expired windows asked
      ]

  -- Steps 2 to 5.
  unfoldable pub evaluate :
      ForcedSurrenderWorkflowInput
      → List Policy
      → List (ForcedCall Policy Window)
      → ForcedOutcome Policy Window
  evaluate input policies calls =
      let (created, reminded) =
        create_reminders (length policies) (reminder_batch_size input.batch_size) policies 0
          calls in
      let monitored =
        ForcedCall.start_window_monitor ("payment-window-monitor-" <> input.evaluation_date)
          input.evaluation_date
        ∷ reminded in
      let (surrenders, checked) = check_windows input.evaluation_date monitored in
      ForcedOutcome.evaluated
        (record {
          evaluation_date = input.evaluation_date;
          policies_evaluated = length policies;
          reminders_created = created;
          surrenders_initiated = surrenders;
          completed_at = env.clock (length checked);
        })
        checked

  unfoldable pub forced_surrender_workflow :
      ForcedSurrenderWorkflowInput → ForcedOutcome Policy Window
  forced_surrender_workflow input =
      let asked = ForcedCall.identify_eligible_policies input.evaluation_date 6 ∷ [] in
      let unevaluated : ForcedSurrenderWorkflowResult = record {
        evaluation_date = input.evaluation_date;
        policies_evaluated = 0;
        reminders_created = 0;
        surrenders_initiated = 0;
        completed_at = 0;
      } in
      elim (env.eligible (length asked)) [
        | Answer.failed err ↦ ForcedOutcome.not_evaluated err unevaluated asked
        | Answer.result policies ↦
            if length policies == 0
            then ForcedOutcome.evaluated
                (record unevaluated { completed_at = env.clock (length asked) }) asked
            else evaluate input policies asked
      ]

  -- So many days of the monitor.
  unfoldable pub monitor_windows :
      ℕ → String → List (ForcedCall Policy Window) → List (ForcedCall Policy Window)
  monitor_windows zero start_date calls = calls
  monitor_windows (suc days) start_date calls =
      monitor_windows days start_date (ForcedCall.sleep_a_day ∷ (check_windows start_date calls).1)

  unfoldable pub payment_window_monitor_workflow : String → List (ForcedCall Policy Window)
  payment_window_monitor_workflow start_date = monitor_windows 90 start_date []
