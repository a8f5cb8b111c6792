-- ===== src/Revival/FirstCollection.antt =====
-- FirstCollectionWorkflow, ChequeMonitorWorkflow and SLATimerWorkflow of
-- workflow/revival_workflow.go.
use text.Mathlib.Text.{◌==◌ as str_eq}
use revival_integration.Base.{
  ℕ, ◌-◌, ◌*◌, Bool, true, false, ◌||◌, Option, none, some, List, [], ◌∷◌, String, ◌<>◌, ℤ, ltb,
  if◌then◌else◌, length,
}
use revival_integration.Stdlib.Duration.{Time, day}
use revival_integration.Revival.Case.{Answer}

pub record FirstCollectionInput : Type 0 where
  pub request_id : String
  pub policy_number : String
  pub premium_amount : ℤ
  pub installment_amount : ℤ
  pub payment_mode : String
  pub total_amount : ℤ
  pub cheque_number : Option String
  pub bank_name : Option String
  pub cheque_date : Option Time
  pub cheque_amount : Option ℤ
  pub premium_sgst : ℤ
  pub premium_cgst : ℤ
  pub installment_sgst : ℤ
  pub installment_cgst : ℤ

pub record ChequeMonitorInput : Type 0 where
  pub request_id : String
  pub cheque_id : String
  pub amount : ℤ

pub record ChequeClearedSignal : Type 0 where
  pub cleared_at : Time
  pub bank_name : String

pub record ChequeDishonoredSignal : Type 0 where
  pub dishonored_at : Time
  pub reason : String

-- What the workflow does, the newest first.
pub data CollectionCall : Type 0 where
  validate_dual_collection : FirstCollectionInput → CollectionCall
  process_dual_payment : FirstCollectionInput → String → CollectionCall
  create_cheque_record : FirstCollectionInput → CollectionCall
  start_cheque_monitor : String → ChequeMonitorInput → CollectionCall
  received_cheque_cleared : CollectionCall

-- Every path but the wait for the cheque returns nil.
pub data FirstCollectionOutcome : Type 0 where
  first_collection_over : List CollectionCall → FirstCollectionOutcome
  awaits_clearance : List CollectionCall → FirstCollectionOutcome

abbrev pub is_immediate : String → Bool
is_immediate mode =
    str_eq mode "CASH"
    || str_eq mode "NEFT"
    || str_eq mode "RTGS"
    || str_eq mode "UPI"
    || str_eq mode "CARD"

-- The answers of the activities, by what was done before.
module _ (acknowledged : ℕ → Option String) (cheque_record : ℕ → Answer String)
    (input : FirstCollectionInput) where
  -- ProcessDualPaymentActivity, whose error is only logged.
  unfoldable pub pay : List CollectionCall → FirstCollectionOutcome
  pay calls =
      FirstCollectionOutcome.first_collection_over
        (CollectionCall.process_dual_payment input "COMPLETED" ∷ calls)

  unfoldable pub await_clearance :
      Option ChequeClearedSignal → String → List CollectionCall → FirstCollectionOutcome
  await_clearance signal id calls =
      let started =
        CollectionCall.start_cheque_monitor ("cheque-monitor-" <> input.request_id)
          (record { request_id = input.request_id; cheque_id = id; amount = input.total_amount })
        ∷ calls in
      elim signal [
        | none ↦ FirstCollectionOutcome.awaits_clearance started
        | some _ ↦ pay (CollectionCall.received_cheque_cleared ∷ started)
      ]

  unfoldable pub pay_by_cheque :
      Option ChequeClearedSignal → List CollectionCall → FirstCollectionOutcome
  pay_by_cheque signal calls =
      let asked = CollectionCall.create_cheque_record input ∷ calls in
      elim (cheque_record (length asked)) [
        | Answer.failed _ ↦ FirstCollectionOutcome.first_collection_over asked
        | Answer.result id ↦ await_clearance signal id asked
      ]

  -- The signal is the first on the channel cheque-cleared, if there is one.
  unfoldable pub first_collection_workflow : Option ChequeClearedSignal → FirstCollectionOutcome
  first_collection_workflow signal =
      let validated = CollectionCall.validate_dual_collection input ∷ [] in
      elim (acknowledged (length validated)) [
        | some _ ↦ FirstCollectionOutcome.first_collection_over validated
        | none ↦
            if is_immediate input.payment_mode
            then pay validated
            else if str_eq input.payment_mode "CHEQUE"
            then pay_by_cheque signal validated
            else FirstCollectionOutcome.first_collection_over validated
      ]

-- What the selector of ChequeMonitorWorkflow sees first.
pub data ChequeEvent : Type 0 where
  cleared : ChequeClearedSignal → ChequeEvent
  dishonored : ChequeDishonoredSignal → ChequeEvent
  timed_out : ChequeEvent

-- ChequeMonitorWorkflow: its timer, and whether it has ended. No event makes it do anything.
unfoldable pub cheque_monitor_workflow : Option ChequeEvent → ℕ × Bool
cheque_monitor_workflow none = (30 * day, false)
cheque_monitor_workflow (some _) = (30 * day, true)

-- SLATimerWorkflow: the timer that it waits for, if there is any.
unfoldable pub sla_timer_workflow : Time → Time → Option ℕ
sla_timer_workflow sla_end now = if ltb now sla_end then some (sla_end - now) else none
