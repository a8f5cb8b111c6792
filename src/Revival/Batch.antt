-- ===== src/Revival/Batch.antt =====
-- BatchInstallmentProcessingWorkflow of workflow/revival_workflow.go.
pub mod Counts
use text.Mathlib.Text.{◌==◌ as str_eq}
use revival_integration.Base.{
  ℕ, suc, Bool, true, false, Option, none, some, List, [], ◌∷◌, ◌++◌, String, ◌<>◌, ℤ,
  if◌then◌else◌, length,
}
use revival_integration.Stdlib.Duration.{Time}
use revival_integration.Stdlib.Decimal.{format_int}
use revival_integration.Revival.Signal.{InstallmentPaymentSignal}

pub record InstallmentPaymentData : Type 0 where
  pub installment_number : ℤ
  pub amount : ℤ
  pub payment_mode : String

pub record BatchInstallmentInput : Type 0 where
  pub request_id : String
  pub policy_number : String
  pub ticket_id : String
  pub installments : List InstallmentPaymentData
  pub atomic_mode : Bool
  pub monitor_workflow_id : String
  pub signal_monitor_on_paid : Bool

pub record InstallmentProcessingResult : Type 0 where
  pub installment_number : ℤ
  pub success : Bool
  pub payment_id : String
  pub error_message : String

pub record BatchInstallmentResult : Type 0 where
  pub total_submitted : ℕ
  pub successful : ℕ
  pub failed : ℕ
  pub results : List InstallmentProcessingResult

-- What the workflow does, the newest first; the sleep is in milliseconds.
pub data BatchCall : Type 0 where
  signal_monitor : String → String → InstallmentPaymentSignal → BatchCall
  sleep : ℕ → BatchCall

-- The result, or the error that the workflow returns in its place.
pub data BatchOutcome : Type 0 where
  returned : BatchInstallmentResult → List BatchCall → BatchOutcome
  batch_failed : String → List BatchCall → BatchOutcome

-- `instResult` with its fate, and the counters beside it; each grows at most once for each of the
-- installments, whose number an `int` holds.
unfoldable pub add_success : ℤ → BatchInstallmentResult → BatchInstallmentResult
add_success number r = record r {
  successful = suc r.successful;
  results =
      r.results
      ++ (record {
        installment_number = number;
        success = true;
        payment_id = "";
        error_message = "";
      }
          ∷ []);
}

unfoldable pub add_failure : ℤ → String → BatchInstallmentResult → BatchInstallmentResult
add_failure number message r = record r {
  failed = suc r.failed;
  results =
      r.results
      ++ (record {
        installment_number = number;
        success = false;
        payment_id = "";
        error_message = message;
      }
          ∷ []);
}

-- The clock of the workflow, and the error of SignalExternalWorkflow, by what it did before.
module _ (clock : ℕ → Time) (signalled : ℕ → Option String) (input : BatchInstallmentInput) where
  -- The signal to the monitor.
  unfoldable pub signal_for : InstallmentPaymentData → List BatchCall → BatchCall
  signal_for inst calls =
      BatchCall.signal_monitor input.monitor_workflow_id
        ("installment-payment-received-" <> format_int inst.installment_number)
        (record {
          payment_date = clock (length calls);
          amount = inst.amount;
          payment_mode = inst.payment_mode;
        })

  -- The loop over the installments.
  unfoldable pub process_batch :
      List InstallmentPaymentData → BatchInstallmentResult → List BatchCall → BatchOutcome
  process_batch [] r calls = BatchOutcome.returned r calls
  process_batch (inst ∷ rest) r calls =
      if str_eq input.monitor_workflow_id ""
      then (let next =
            process_batch rest (add_failure inst.installment_number "MonitorWorkflowID is empty" r)
              calls in
          if input.atomic_mode
          then BatchOutcome.batch_failed "batch failed: MonitorWorkflowID is empty" calls
          else next)
      else (let sent = signal_for inst calls ∷ calls in
          elim (signalled (length sent)) [
            | none ↦
                process_batch rest (add_success inst.installment_number r)
                  (BatchCall.sleep 500 ∷ sent)
            | some err ↦
                let next =
                  process_batch rest
                    (add_failure inst.installment_number ("Failed to signal: " <> err) r) sent in
                if input.atomic_mode
                then BatchOutcome.batch_failed
                    ("batch failed to signal installment "
                      <> (format_int inst.installment_number <> (": " <> err)))
                    sent
                else next
          ])

  unfoldable pub batch_installment_processing_workflow : BatchOutcome
  batch_installment_processing_workflow =
      process_batch input.installments
        (record {
          total_submitted = length input.installments;
          successful = 0;
          failed = 0;
          results = [];
        })
        []
