-- ===== src/Surrender/Payment/Once.antt =====
-- How often PaymentWorkflow pays, and what it says of it.
use revival_integration.Base.{ℕ, suc, ◌≤◌, ◌≡◌, ◌↔◌, Bool, true, false, none, List, [], ◌∷◌, arith}
use revival_integration.Surrender.Payment.{
  PaymentWorkflowInput, PaymentStatus, PaymentWorkflowResult, PaymentCall, PaymentEnv,
  PaymentOutcome, notify, update_policy, record_disposition, pay_out, dispose, payment_workflow,
}

-- The payments asked for.
abbrev pub payments_made : List PaymentCall → ℕ
payments_made [] = 0
payments_made (PaymentCall.process_payment _ _ _ ∷ calls) = suc (payments_made calls)
payments_made (_ ∷ calls) = payments_made calls

-- The statuses that say that the money was paid.
abbrev pub says_paid : PaymentStatus → Bool
says_paid PaymentStatus.payment_completed_disposition_failed = true
says_paid PaymentStatus.payment_completed_policy_update_failed = true
says_paid PaymentStatus.completed = true
says_paid _ = false

-- At most one payment; it was asked for where the status says so, which is where no error is
-- returned.
unfoldable pub IsPaidOnce : PaymentOutcome → Type 0
IsPaidOnce (r, err, calls) =
    (payments_made calls ≤ 1)
    × (says_paid r.status ≡ true → payments_made calls ≡ 1)
    × ((err ≡ none) ↔ (says_paid r.status ≡ true))

module _ (env : PaymentEnv) (input : PaymentWorkflowInput) where
  update_policy-IsPaidOnce :
      (r : PaymentWorkflowResult) (calls : List PaymentCall)
      → payments_made calls ≡ 1
      → IsPaidOnce (update_policy env input r calls)
  unfolding IsPaidOnce update_policy notify
  update_policy-IsPaidOnce r calls h = ground arith

  record_disposition-IsPaidOnce :
      (r : PaymentWorkflowResult) (calls : List PaymentCall)
      → payments_made calls ≡ 1
      → IsPaidOnce (record_disposition env input r calls)
  unfolding IsPaidOnce record_disposition
  record_disposition-IsPaidOnce r calls h =
      let asked =
        PaymentCall.create_disposition_record input.surrender_request_id input.policy_id
          r.disposition_type r.payment_reference input.amount r.new_policy_status
        ∷ calls in
      ground (arith, h, update_policy-IsPaidOnce r asked h)

  pay_out-IsPaidOnce :
      (r : PaymentWorkflowResult) (calls : List PaymentCall)
      → payments_made calls ≡ 0
      → IsPaidOnce (pay_out env input r calls)
  unfolding IsPaidOnce pay_out
  pay_out-IsPaidOnce r calls h = grind (arith, h, record_disposition-IsPaidOnce)

  dispose-IsPaidOnce :
      (r : PaymentWorkflowResult) (calls : List PaymentCall)
      → payments_made calls ≡ 0
      → says_paid r.status ≡ false
      → IsPaidOnce (dispose env input r calls)
  unfolding IsPaidOnce dispose
  dispose-IsPaidOnce r calls h s = grind (arith, h, s, pay_out-IsPaidOnce)

  -- The workflow asks for at most one payment. It returns no error just where its status says that
  -- the money was paid, and then it has asked for the payment, also where the disposition record,
  -- the policy's status or the notification failed after it.
  pub payment_workflow-IsPaidOnce : IsPaidOnce (payment_workflow env input)
  unfolding IsPaidOnce payment_workflow
  payment_workflow-IsPaidOnce = grind (arith, dispose-IsPaidOnce)
