-- ===== src/Revival/Monitor/Payments.antt =====
-- Payments that the monitor receives and the database refuses.
use mathlib.Core.Path.{subst}
use revival_integration.Base.{
  ℕ, suc, ◌+◌, ◌≡◌, ◌≢◌, refl, ◌∙◌, Option, none, List, [], ◌∷◌, String, pos, arith, length,
}
use revival_integration.Stdlib.Duration.{Time}
use revival_integration.Revival.State.{InstallmentMonitorInput}
use revival_integration.Revival.Signal.{InstallmentPaymentSignal}
use revival_integration.Revival.Monitor.{
  MonitorEvent, Monitor, all_done, watch_installment, take_payment, monitor_from,
  installment_monitor_workflow,
}
use revival_integration.Revival.Monitor.Order.{
  processed, defaults, down_to_2, after_first, InOrder, installment_monitor_workflow-InOrder,
}

abbrev pub payments : List InstallmentPaymentSignal → List MonitorEvent
payments [] = []
payments (sig ∷ sigs) = MonitorEvent.payment sig ∷ payments sigs

module _ (clock : ℕ → Time) (answers : ℕ → Option String) (input : InstallmentMonitorInput) where
  take_payment-refused :
      (n : ℕ) (sig : InstallmentPaymentSignal) (m : Monitor)
      → ((i : ℕ) → answers i ≢ none)
      → (take_payment clock answers input n sig m).current_expected_installment
        ≡ m.current_expected_installment
  unfolding take_payment
  take_payment-refused n sig m r = grind (arith, r)

  -- The rounds in which the payments arrive one after the other.
  abbrev pub pay_all : ℕ → List InstallmentPaymentSignal → Monitor → Monitor
  pay_all n [] m = m
  pay_all n (sig ∷ sigs) m =
      pay_all (suc n) sigs
        (take_payment clock answers input n sig (watch_installment clock answers input n m))

  monitor_from-payments :
      (n t : ℕ) (sigs : List InstallmentPaymentSignal) (m : Monitor)
      → input.number_of_installments ≡ pos t
      → n + length sigs ≡ suc t
      → monitor_from clock answers input n (payments sigs) m ≡ all_done (pay_all n sigs m)
  unfolding monitor_from
  monitor_from-payments n t [] m p e = ground arith
  monitor_from-payments n t (sig ∷ sigs) m p e =
      let taken =
        take_payment clock answers input n sig (watch_installment clock answers input n m) in
      ground (arith, p, monitor_from-payments (suc n) t sigs taken p (omega arith))

  pay_all-refused :
      (n : ℕ) (sigs : List InstallmentPaymentSignal) (m : Monitor)
      → ((i : ℕ) → answers i ≢ none)
      → (pay_all n sigs m).current_expected_installment ≡ m.current_expected_installment
  unfolding watch_installment
  pay_all-refused n [] m r = refl
  pay_all-refused n (sig ∷ sigs) m r =
      let watched = watch_installment clock answers input n m in
      pay_all-refused (suc n) sigs (take_payment clock answers input n sig watched) r
      ∙ take_payment-refused n sig watched r

  -- Where a payment comes in each round and the database refuses every one of them, the monitor
  -- completes: it has handed each installment from the second on to the database once, in order, and
  -- none to the defaults. Its counter of the expected installment still stands at the second.
  pub installment_monitor_workflow-payments :
      (t : ℕ) (sigs : List InstallmentPaymentSignal)
      → input.number_of_installments ≡ pos t
      → suc (length sigs) ≡ t
      → ((i : ℕ) → answers i ≢ none)
      → (m : Monitor) × (installment_monitor_workflow clock answers input (payments sigs)
          ≡ all_done m)
        × (processed m.calls ≡ down_to_2 (after_first input.number_of_installments))
        × (defaults m.calls ≡ [])
        × (m.current_expected_installment ≡ 2)
  unfolding installment_monitor_workflow InOrder
  installment_monitor_workflow-payments t sigs p e refused =
      let start : Monitor = record { current_expected_installment = 2; calls = [] } in
      let completes = monitor_from-payments 2 t sigs start p (omega arith) in
      let (once, none_due) =
        subst (InOrder input.number_of_installments) completes
          (installment_monitor_workflow-InOrder clock answers input (payments sigs)) in
      (pay_all 2 sigs start, completes, once, none_due, pay_all-refused 2 sigs start refused)
