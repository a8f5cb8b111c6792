-- ===== src/Surrender/Processing/Report.antt =====
-- What SurrenderProcessingWorkflow reports to policy management.
use text.Mathlib.Text.{◌==◌ as str_eq}
use revival_integration.Base.{
  ℤ, suc, ◌≡◌, refl, ap, inl, inr, Option-cases, Bool, false, ◌||◌, not, Option, some, is_some,
  List, [], ◌∷◌, String, ◌<>◌, length, arith,
}
use revival_integration.Revival.Case.{Answer}
use revival_integration.Surrender.Contract.{
  SurrenderProcessingInput, SubmitDeInput, SignalPmWorkflowInput, outcome_approved,
}
use revival_integration.Surrender.Desks.{
  SurrenderStage, ProcessingCall, ProcessingEnv, ProcessingOutcome, desk_days,
}
use revival_integration.Surrender.Processing.{
  signal_pm_back, reject_surrender, time_out, finish_surrender, completion, pay_surrender,
  value_surrender, await_desk, submit_form, submit_approval, pass_desks, check_surrender,
  index_surrender_input, surrender_processing_workflow,
}

-- The signals to policy management that SignalPMWorkflowActivity was asked for, the newest first.
abbrev pub reports : List ProcessingCall → List SignalPmWorkflowInput
reports [] = []
reports (ProcessingCall.signal_pm_workflow s ∷ calls) = s ∷ reports calls
reports (_ ∷ calls) = reports calls

-- A payment was asked for, and no error came back.
abbrev pub is_paid_out : ProcessingEnv → List ProcessingCall → Bool
is_paid_out env [] = false
is_paid_out env (ProcessingCall.process_payment p ∷ calls) =
    not (is_some (env.paid (length (ProcessingCall.process_payment p ∷ calls))))
    || is_paid_out env calls
is_paid_out env (_ ∷ calls) = is_paid_out env calls

-- A signal that policy management can match to its request, and what it says of the payment.
pub record Tells (input : SurrenderProcessingInput) (paid : Bool) (s : SignalPmWorkflowInput)
    : Type 0 where
  pub to_policy : s.pm_workflow_id ≡ "plw-" <> input.policy_number
  pub on_channel : s.signal_name ≡ "surrender-completed"
  pub of_request : s.request_id ≡ input.request_id
  pub of_type : s.request_type ≡ "SURRENDER"
  pub says : str_eq s.outcome outcome_approved ≡ paid

-- Where the workflow has ended it has asked for one signal, which says whether the money was paid;
-- where it waits it has asked for none and paid nothing.
unfoldable pub IsReported : ProcessingEnv → SurrenderProcessingInput → ProcessingOutcome → Type 0
IsReported env input (ProcessingOutcome.ended err calls) =
    (s : SignalPmWorkflowInput) × (reports calls ≡ s ∷ []) × Tells input (is_paid_out env calls) s
IsReported env input (ProcessingOutcome.waiting _ calls) =
    (reports calls ≡ []) × (is_paid_out env calls ≡ false)

module _ (env : ProcessingEnv) (input : SurrenderProcessingInput) where
  -- Nothing was reported or paid yet.
  abbrev IsQuiet : List ProcessingCall → Type 0
  IsQuiet calls = (reports calls ≡ []) × (is_paid_out env calls ≡ false)

  told :
      (outcome transition reason : String) (err : Option String) (calls : List ProcessingCall)
      → reports calls ≡ []
      → str_eq outcome outcome_approved ≡ is_paid_out env calls
      → IsReported env input
          (ProcessingOutcome.ended err (signal_pm_back env input outcome transition reason calls))
  unfolding IsReported signal_pm_back completion
  told outcome transition reason err calls r p =
      let s = completion env input outcome transition reason in
      let one = ap (λ l. s ∷ l) r in
      let tells : Tells input (is_paid_out env calls) s = record {
        to_policy = refl;
        on_channel = refl;
        of_request = refl;
        of_type = refl;
        says = p;
      } in
      elim (Option-cases (env.signalled (suc (length calls)))) [
        | inl e ↦ rw (e, signal_pm_back) (s, one, tells)
        | inr (m, e) ↦ rw (e, signal_pm_back) (s, one, tells)
      ]

  reject_surrender-IsReported :
      (reason : String) (err : Option String) (calls : List ProcessingCall)
      → IsQuiet calls
      → IsReported env input (reject_surrender env input reason err calls)
  unfolding reject_surrender
  reject_surrender-IsReported reason err calls (r, p) = told _ _ reason err calls r (ground arith)

  time_out-IsReported :
      (stage : SurrenderStage) (calls : List ProcessingCall)
      → IsQuiet calls
      → IsReported env input (time_out env input stage calls)
  unfolding time_out
  time_out-IsReported stage calls (r, p) = told _ _ _ _ calls r (ground arith)

  pay_surrender-IsReported :
      (id : String) (net : ℤ) (disposition : String) (calls : List ProcessingCall)
      → IsQuiet calls
      → IsReported env input (pay_surrender env input id net disposition calls)
  unfolding pay_surrender finish_surrender
  pay_surrender-IsReported id net disposition calls (r, p) =
      let asked =
        ProcessingCall.process_payment
          (record { surrender_request_id = id; amount = net; disbursement_method = "" })
        ∷ calls in
      elim (Option-cases (env.paid (length asked))) [
        | inl ok ↦ rw (ok, pay_surrender) (told _ _ _ _ _ r (ground arith))
        | inr (err, failure) ↦
            rw (failure, pay_surrender)
              (reject_surrender-IsReported err (some err) asked (r, ground arith))
      ]

  value_surrender-IsReported :
      (id : String) (calls : List ProcessingCall)
      → IsQuiet calls
      → IsReported env input (value_surrender env input id calls)
  unfolding value_surrender
  value_surrender-IsReported id calls q =
      let asked = ProcessingCall.calculate_surrender_value id input.policy_number ∷ calls in
      elim (env.calculated (length asked))
        as (λ answer. IsReported env input (elim answer [
          | Answer.failed err ↦ reject_surrender env input err (some err) asked
          | Answer.result (net, disposition) ↦ pay_surrender env input id net disposition asked
        ])) [
          | Answer.failed err ↦ reject_surrender-IsReported err (some err) asked q
          | Answer.result (net, disposition) ↦ pay_surrender-IsReported id net disposition asked q
        ]

  await_desk-IsReported :
      (stage : SurrenderStage) (calls : List ProcessingCall)
      (go_on : SubmitDeInput → List ProcessingCall → ProcessingOutcome)
      → ((form : SubmitDeInput) (l : List ProcessingCall)
          → IsQuiet l
          → IsReported env input (go_on form l))
      → IsQuiet calls
      → IsReported env input (await_desk env input stage calls go_on)
  unfolding await_desk IsReported
  await_desk-IsReported stage calls go_on h q =
      let woken =
        ProcessingCall.wait_ended stage ∷ ProcessingCall.start_timer (desk_days stage) ∷ calls in
      grind (arith, h, time_out-IsReported stage woken q)

  submit_form-IsReported :
      (stage : SurrenderStage) (form : SubmitDeInput) (calls : List ProcessingCall)
      (go_on : List ProcessingCall → ProcessingOutcome)
      → ((l : List ProcessingCall) → IsQuiet l → IsReported env input (go_on l))
      → IsQuiet calls
      → IsReported env input (submit_form env input stage form calls go_on)
  unfolding submit_form IsReported
  submit_form-IsReported stage form calls go_on h q =
      let asked = ProcessingCall.submit stage form ∷ calls in
      let rejected =
        λ (reason : String) (err : Option String). reject_surrender-IsReported reason err asked q in
      grind (arith, h asked q, rejected)

  submit_approval-IsReported :
      (id : String) (form : SubmitDeInput) (calls : List ProcessingCall)
      → IsQuiet calls
      → IsReported env input (submit_approval env input id form calls)
  unfolding submit_approval IsReported
  submit_approval-IsReported id form calls q =
      let asked = ProcessingCall.submit SurrenderStage.approval form ∷ calls in
      let rejected =
        λ (reason : String) (err : Option String). reject_surrender-IsReported reason err asked q in
      grind (arith, value_surrender-IsReported id asked q, rejected)

  pass_desks-IsReported :
      (id : String) (calls : List ProcessingCall)
      → IsQuiet calls
      → IsReported env input (pass_desks env input id calls)
  unfolding pass_desks
  pass_desks-IsReported id calls =
      await_desk-IsReported SurrenderStage.data_entry calls _ λ entry called.
        submit_form-IsReported SurrenderStage.data_entry entry called _ λ entered.
          await_desk-IsReported SurrenderStage.quality_check entered _ λ check checked.
            submit_form-IsReported SurrenderStage.quality_check check checked _ λ passed.
              await_desk-IsReported SurrenderStage.approval passed _ (submit_approval-IsReported id)

  check_surrender-IsReported :
      (id : String) (calls : List ProcessingCall)
      → IsQuiet calls
      → IsReported env input (check_surrender env input id calls)
  unfolding check_surrender IsReported
  check_surrender-IsReported id calls q =
      let asked = ProcessingCall.validate_eligibility input.policy_number id ∷ calls in
      let rejected =
        λ (reason : String) (err : Option String). reject_surrender-IsReported reason err asked q in
      grind (arith, pass_desks-IsReported id asked q, rejected)

  -- Where the workflow has ended, in whatever way, it has asked SignalPMWorkflowActivity exactly once
  -- to signal policy management, and the activity may still fail. The signal goes to the policy's
  -- workflow, and carries the identifier of the request that this workflow was started for and the
  -- outcome APPROVED just where a payment was asked for and succeeded. Where the workflow still waits
  -- it has asked for no signal and paid nothing.
  pub surrender_processing_workflow-IsReported :
      IsReported env input (surrender_processing_workflow env input)
  unfolding surrender_processing_workflow IsReported
  surrender_processing_workflow-IsReported =
      let asked = ProcessingCall.index_surrender (index_surrender_input env input) ∷ [] in
      let q : IsQuiet asked = (refl, refl) in
      let rejected =
        λ (reason : String) (err : Option String). reject_surrender-IsReported reason err asked q in
      let validated = λ (id : String). check_surrender-IsReported id asked q in
      grind (arith, rejected, validated)
