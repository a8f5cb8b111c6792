-- ===== src/Surrender/Payment.antt =====
-- PaymentWorkflow of temporal/workflows/payment_workflow.go.
pub mod Once
use revival_integration.Base.{
  ℕ, Bool, Option, none, some, List, [], ◌∷◌, String, ◌<>◌, ℤ, if◌then◌else◌, length,
}
use revival_integration.Stdlib.Duration.{Time}
use revival_integration.Revival.Case.{Answer}

-- The amount is whole hundredths.
pub record PaymentWorkflowInput : Type 0 where
  pub surrender_request_id : String
  pub policy_id : String
  pub amount : ℤ
  pub disbursement_method : String

-- result.Status: its texts, and the empty one.
pub data PaymentStatus : Type 0 where
  no_status : PaymentStatus
  failed_validation : PaymentStatus
  not_eligible : PaymentStatus
  failed_payment : PaymentStatus
  payment_completed_disposition_failed : PaymentStatus
  payment_completed_policy_update_failed : PaymentStatus
  completed : PaymentStatus

pub record PaymentWorkflowResult : Type 0 where
  pub surrender_request_id : String
  pub payment_reference : String
  pub status : PaymentStatus
  pub processed_at : Time
  pub disposition_type : String
  pub new_policy_status : String
  pub completed_at : Time

-- The activities with their arguments, the newest first.
pub data PaymentCall : Type 0 where
  validate_payment_eligibility : String → PaymentCall
  determine_disposition : String → ℤ → PaymentCall
  process_payment : String → ℤ → String → PaymentCall
  create_disposition_record : String → String → String → String → ℤ → String → PaymentCall
  update_policy_status : String → String → String → PaymentCall
  send_payment_notification : String → String → String → ℤ → String → PaymentCall

-- The clock and the answers, by what was done before.
pub record PaymentEnv : Type 0 where
  pub clock : ℕ → Time
  -- Eligible and Reason
  pub eligibility : ℕ → Answer (Bool × String)
  -- DispositionType and NewPolicyStatus
  pub disposition : ℕ → Answer (String × String)
  -- PaymentReference
  pub paid : ℕ → Answer String
  pub recorded : ℕ → Option String
  pub updated : ℕ → Option String

-- The result, the error that is returned beside it, and what was done.
abbrev pub PaymentOutcome : Type 0
PaymentOutcome = PaymentWorkflowResult × Option String × List PaymentCall

module _ (env : PaymentEnv) (input : PaymentWorkflowInput) where
  -- Step 6; the error of the notification is only logged.
  unfoldable pub notify : PaymentWorkflowResult → List PaymentCall → PaymentOutcome
  notify r calls =
      let asked =
        PaymentCall.send_payment_notification input.surrender_request_id input.policy_id
          r.payment_reference input.amount r.disposition_type
        ∷ calls in
      (
        record r { status = PaymentStatus.completed; completed_at = env.clock (length asked) },
        none,
        asked,
      )

  -- Step 5.
  unfoldable pub update_policy : PaymentWorkflowResult → List PaymentCall → PaymentOutcome
  update_policy r calls =
      let asked =
        PaymentCall.update_policy_status input.policy_id input.surrender_request_id
          r.new_policy_status
        ∷ calls in
      elim (env.updated (length asked)) [
        | none ↦ notify r asked
        | some _ ↦ (
          record r { status = PaymentStatus.payment_completed_policy_update_failed },
          none,
          asked,
        )
      ]

  -- Step 4.
  unfoldable pub record_disposition : PaymentWorkflowResult → List PaymentCall → PaymentOutcome
  record_disposition r calls =
      let asked =
        PaymentCall.create_disposition_record input.surrender_request_id input.policy_id
          r.disposition_type r.payment_reference input.amount r.new_policy_status
        ∷ calls in
      elim (env.recorded (length asked)) [
        | none ↦ update_policy r asked
        | some _ ↦
            (record r { status = PaymentStatus.payment_completed_disposition_failed }, none, asked)
      ]

  -- Step 3.
  unfoldable pub pay_out : PaymentWorkflowResult → List PaymentCall → PaymentOutcome
  pay_out r calls =
      let asked =
        PaymentCall.process_payment input.surrender_request_id input.amount
          input.disbursement_method
        ∷ calls in
      elim (env.paid (length asked)) [
        | Answer.failed err ↦ (record r { status = PaymentStatus.failed_payment }, some err, asked)
        | Answer.result reference ↦
            record_disposition
              (record r { payment_reference = reference; processed_at = env.clock (length asked) })
              asked
      ]

  -- Step 2.
  unfoldable pub dispose : PaymentWorkflowResult → List PaymentCall → PaymentOutcome
  dispose r calls =
      let asked =
        PaymentCall.determine_disposition input.surrender_request_id input.amount ∷ calls in
      elim (env.disposition (length asked)) [
        | Answer.failed err ↦ (r, some err, asked)
        | Answer.result (kind, status) ↦
            pay_out (record r { disposition_type = kind; new_policy_status = status }) asked
      ]

  unfoldable pub payment_workflow : PaymentOutcome
  payment_workflow =
      let r : PaymentWorkflowResult = record {
        surrender_request_id = input.surrender_request_id;
        payment_reference = "";
        status = PaymentStatus.no_status;
        processed_at = 0;
        disposition_type = "";
        new_policy_status = "";
        completed_at = 0;
      } in
      let asked = PaymentCall.validate_payment_eligibility input.surrender_request_id ∷ [] in
      elim (env.eligibility (length asked)) [
        | Answer.failed err ↦
            (record r { status = PaymentStatus.failed_validation }, some err, asked)
        | Answer.result (eligible, reason) ↦ if eligible then dispose r asked else (
          record r { status = PaymentStatus.not_eligible },
          some ("not eligible for payment: " <> reason),
          asked,
        )
      ]
