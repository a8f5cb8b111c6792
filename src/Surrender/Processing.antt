-- ===== src/Surrender/Processing.antt =====
-- SurrenderProcessingWorkflow and signalPMBack of
-- temporal/workflows/voluntary_surrender_workflow.go: the child workflow that policy management
-- starts for a surrender.
pub mod Report
pub mod Delivery
use text.Mathlib.Text.{◌==◌ as str_eq}
use revival_integration.Base.{
  ℕ, Bool, Option, none, some, List, [], ◌∷◌, String, ◌<>◌, ℤ, if◌then◌else◌, length,
}
use revival_integration.Lifecycle.Signal.{RawMessage}
use revival_integration.Revival.Case.{Answer}
use revival_integration.Surrender.Contract.{
  SurrenderProcessingInput, PmSurrenderRequestPayload, IndexSurrenderInput, SubmitDeInput,
  ProcessPaymentInput, SignalPmWorkflowInput, outcome_approved, outcome_rejected, outcome_timeout,
  state_transition_surrendered, state_transition_surrender_rejected,
  state_transition_surrender_timeout,
}
use revival_integration.Surrender.Desks.{
  SurrenderStage, DeskArrival, ProcessingCall, ProcessingEnv, ProcessingOutcome, desk_days,
  timeout_reason, timeout_error, submission_error,
}

module _ (env : ProcessingEnv) (input : SurrenderProcessingInput) where
  unfoldable pub outcome_payload : String → RawMessage
  outcome_payload reason =
      if str_eq reason ""
      then RawMessage.absent
      else RawMessage.object (("reason", env.json_text reason) ∷ [])

  unfoldable pub completion : String → String → String → SignalPmWorkflowInput
  completion outcome state_transition reason = record {
    pm_workflow_id = "plw-" <> input.policy_number;
    signal_name = "surrender-completed";
    request_id = input.request_id;
    request_type = "SURRENDER";
    outcome = outcome;
    state_transition = state_transition;
    outcome_payload = outcome_payload reason;
  }

  -- signalPMBack. An error is only logged, and policy management may then never hear of the outcome.
  unfoldable pub signal_pm_back :
      String → String → String → List ProcessingCall → List ProcessingCall
  signal_pm_back outcome state_transition reason calls =
      let asked =
        ProcessingCall.signal_pm_workflow (completion outcome state_transition reason) ∷ calls in
      elim (env.signalled (length asked)) [
        | none ↦ asked
        | some err ↦ ProcessingCall.signal_failure_logged err ∷ asked
      ]

  unfoldable pub reject_surrender : String → Option String → List ProcessingCall → ProcessingOutcome
  reject_surrender reason err calls =
      ProcessingOutcome.ended err
        (signal_pm_back outcome_rejected state_transition_surrender_rejected reason calls)

  unfoldable pub time_out : SurrenderStage → List ProcessingCall → ProcessingOutcome
  time_out stage calls = ProcessingOutcome.ended (some (timeout_error stage)) (
      signal_pm_back outcome_timeout state_transition_surrender_timeout (timeout_reason stage)
        calls)

  -- Steps 8 and 9. The error of the policy's update is only logged.
  unfoldable pub finish_surrender : String → String → List ProcessingCall → ProcessingOutcome
  finish_surrender id disposition calls = ProcessingOutcome.ended none (
      signal_pm_back outcome_approved state_transition_surrendered ""
        (ProcessingCall.update_policy_status input.policy_number id disposition ∷ calls))

  -- Step 7.
  unfoldable pub pay_surrender : String → ℤ → String → List ProcessingCall → ProcessingOutcome
  pay_surrender id net disposition calls =
      let asked =
        ProcessingCall.process_payment
          (record { surrender_request_id = id; amount = net; disbursement_method = "" })
        ∷ calls in
      elim (env.paid (length asked)) [
        | some err ↦ reject_surrender err (some err) asked
        | none ↦ finish_surrender id disposition asked
      ]

  -- Step 6.
  unfoldable pub value_surrender : String → List ProcessingCall → ProcessingOutcome
  value_surrender id calls =
      let asked = ProcessingCall.calculate_surrender_value id input.policy_number ∷ calls in
      elim (env.calculated (length asked)) [
        | Answer.failed err ↦ reject_surrender err (some err) asked
        | Answer.result (net, disposition) ↦ pay_surrender id net disposition asked
      ]

  -- A wait: a signal without a surrender_request_id counts as none.
  unfoldable pub await_desk :
      SurrenderStage
      → List ProcessingCall
      → (SubmitDeInput → List ProcessingCall → ProcessingOutcome)
      → ProcessingOutcome
  await_desk stage calls go_on =
      let timed = ProcessingCall.start_timer (desk_days stage) ∷ calls in
      let woken = ProcessingCall.wait_ended stage ∷ timed in
      elim (env.arrival stage) [
        | DeskArrival.nothing ↦ ProcessingOutcome.waiting stage timed
        | DeskArrival.timer ↦ time_out stage woken
        | DeskArrival.signal form ↦
            if str_eq form.surrender_request_id "" then time_out stage woken else go_on form woken
      ]

  -- The submission of steps 3 and 4.
  unfoldable pub submit_form :
      SurrenderStage
      → SubmitDeInput
      → List ProcessingCall
      → (List ProcessingCall → ProcessingOutcome)
      → ProcessingOutcome
  submit_form stage form calls go_on =
      let asked = ProcessingCall.submit stage form ∷ calls in
      elim (env.submitted (length asked)) [
        | Answer.failed err ↦ reject_surrender err (some err) asked
        | Answer.result (success, message) ↦
            if success
            then go_on asked
            else reject_surrender message (some (submission_error stage <> message)) asked
      ]

  -- The submission of step 5.
  unfoldable pub submit_approval : String → SubmitDeInput → List ProcessingCall → ProcessingOutcome
  submit_approval id form calls =
      let asked = ProcessingCall.submit SurrenderStage.approval form ∷ calls in
      elim (env.approved (length asked)) [
        | Answer.failed err ↦ reject_surrender err (some err) asked
        | Answer.result (success, message, status) ↦
            if success
            then (if str_eq status "REJECTED"
                then reject_surrender "surrender rejected during approval" none asked
                else value_surrender id asked)
            else reject_surrender message
                (some (submission_error SurrenderStage.approval <> message)) asked
      ]

  -- Steps 3 to 5.
  unfoldable pub pass_desks : String → List ProcessingCall → ProcessingOutcome
  pass_desks id calls = await_desk SurrenderStage.data_entry calls λ entry called.
      submit_form SurrenderStage.data_entry entry called λ entered.
        await_desk SurrenderStage.quality_check entered λ check checked.
          submit_form SurrenderStage.quality_check check checked
            λ passed. await_desk SurrenderStage.approval passed (submit_approval id)

  -- Step 2.
  unfoldable pub check_surrender : String → List ProcessingCall → ProcessingOutcome
  check_surrender id calls =
      let asked = ProcessingCall.validate_eligibility input.policy_number id ∷ calls in
      elim (env.eligibility (length asked)) [
        | Answer.failed err ↦ reject_surrender err (some err) asked
        | Answer.result (eligible, reasons) ↦
            if eligible
            then pass_desks id asked
            else reject_surrender ("not eligible: " <> env.reasons_text reasons)
                (some ("policy not eligible for surrender: " <> env.reasons_text reasons)) asked
      ]

  abbrev pub pm_payload : RawMessage → PmSurrenderRequestPayload
  pm_payload RawMessage.absent = record {
    source_channel = "";
    disbursement_method = "";
    bank_account_id = ℤ.pos 0;
    reason = "";
  }
  pm_payload raw = env.payload_of raw

  abbrev pub index_surrender_input : IndexSurrenderInput
  index_surrender_input = record {
    policy_number = input.policy_number;
    surrender_request_channel = (pm_payload input.request_payload).source_channel;
    temporal_workflow_id = env.workflow_id;
    pm_service_request_id = input.service_request_id;
    pm_policy_db_id = input.policy_db_id;
    stage_name = "Indexed";
  }

  unfoldable pub surrender_processing_workflow : ProcessingOutcome
  surrender_processing_workflow =
      let asked = ProcessingCall.index_surrender index_surrender_input ∷ [] in
      elim (env.indexed (length asked)) [
        | Answer.failed err ↦
            reject_surrender ("failed to create surrender request record: " <> err) (some err) asked
        | Answer.result id ↦ check_surrender id asked
      ]
