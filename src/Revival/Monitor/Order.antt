-- ===== src/Revival/Monitor/Order.antt =====
-- Which installments the monitor processes.
use revival_integration.Base.{
  ℕ, zero, suc, ◌+◌, ◌-◌, ◌≤◌, ◌≡◌, refl, ap, ◌∙◌, ◌⊎◌, inl, inr, true, false, Option, List, [],
  ◌∷◌, String, ℤ, pos, negsuc, arith,
}
use revival_integration.Stdlib.Duration.{Time}
use revival_integration.Revival.State.{InstallmentMonitorInput}
use revival_integration.Revival.Signal.{InstallmentPaymentSignal}
use revival_integration.Revival.Monitor.{
  MonitorEvent, MonitorCall, Monitor, MonitorOutcome, at_most, watch_installment, take_payment,
  fall_due, monitor_from, installment_monitor_workflow,
}

-- The installments handed to ProcessInstallmentActivity, and to HandleDefaultActivity, the newest
-- first.
abbrev pub processed : List MonitorCall → List ℕ
processed [] = []
processed (MonitorCall.process_installment _ n _ _ _ ∷ calls) = n ∷ processed calls
processed (_ ∷ calls) = processed calls

abbrev pub defaults : List MonitorCall → List ℕ
defaults [] = []
defaults (MonitorCall.handle_default _ n ∷ calls) = n ∷ defaults calls
defaults (_ ∷ calls) = defaults calls

-- k numbers, from k + 1 down to 2.
abbrev pub down_to_2 : ℕ → List ℕ
down_to_2 zero = []
down_to_2 (suc k) = (k + 2) ∷ down_to_2 k

-- The installments behind the first.
abbrev pub after_first : ℤ → ℕ
after_first (pos n) = n - 1
after_first (negsuc _) = 0

-- Where the monitor stands, by its outcome: the installments are processed one after the other.
unfoldable pub InOrder : ℤ → MonitorOutcome → Type 0
InOrder total (MonitorOutcome.awaits n m) =
    (processed m.calls ≡ down_to_2 (n - 2)) × (defaults m.calls ≡ []) × (at_most n total ≡ true)
InOrder total (MonitorOutcome.all_done m) =
    (processed m.calls ≡ down_to_2 (after_first total)) × (defaults m.calls ≡ [])
InOrder total (MonitorOutcome.defaulted n m) =
    (processed m.calls ≡ down_to_2 (n - 2)) × (defaults m.calls ≡ n ∷ []) × (at_most n total ≡ true)

at_most_cases :
    (n k : ℕ) (total : ℤ)
    → n ≡ k + 2
    → k ≤ after_first total
    → ((at_most n total ≡ true) × (suc k ≤ after_first total))
      ⊎ ((at_most n total ≡ false) × (k ≡ after_first total))
at_most_cases n k (pos total) e b = ground arith
at_most_cases n k (negsuc total) e b = ground arith

module _ (clock : ℕ → Time) (answers : ℕ → Option String) (input : InstallmentMonitorInput) where
  take_payment-processed :
      (n : ℕ) (sig : InstallmentPaymentSignal) (m : Monitor)
      → (processed (take_payment clock answers input n sig m).calls ≡ n ∷ processed m.calls)
        × (defaults (take_payment clock answers input n sig m).calls ≡ defaults m.calls)
  unfolding take_payment
  take_payment-processed n sig m = ground arith

  monitor_from-InOrder :
      (n k : ℕ) (events : List MonitorEvent) (m : Monitor)
      → n ≡ k + 2
      → processed m.calls ≡ down_to_2 k
      → defaults m.calls ≡ []
      → k ≤ after_first input.number_of_installments
      → InOrder input.number_of_installments (monitor_from clock answers input n events m)
  unfolding monitor_from InOrder watch_installment fall_due
  monitor_from-InOrder n k [] m e p d b =
      elim (at_most_cases n k input.number_of_installments e b) [
        | inl more ↦ rw more.0 (p ∙ ap down_to_2 (omega arith), d, more.0)
        | inr done ↦ rw done.0 (p ∙ ap down_to_2 done.1, d)
      ]
  monitor_from-InOrder n k (MonitorEvent.payment sig ∷ events) m e p d b =
      let watched = watch_installment clock answers input n m in
      let taken = take_payment clock answers input n sig watched in
      let (one, none_due) = take_payment-processed n sig watched in
      elim (at_most_cases n k input.number_of_installments e b) [
        | inl more ↦ rw more.0 (
            monitor_from-InOrder (suc n) (suc k) events taken (omega arith)
              (ground (arith, one, p, e)) (none_due ∙ d) more.1)
        | inr done ↦ rw done.0 (p ∙ ap down_to_2 done.1, d)
      ]
  monitor_from-InOrder n k (MonitorEvent.fell_due ∷ events) m e p d b =
      elim (at_most_cases n k input.number_of_installments e b) [
        | inl more ↦ rw more.0 (p ∙ ap down_to_2 (omega arith), ground (arith, d), more.0)
        | inr done ↦ rw done.0 (p ∙ ap down_to_2 done.1, d)
      ]

  -- The monitor hands the installments over from the second on, in order and each of them once: all
  -- of them where it completes, those before the one that falls due where it defaults, which is then
  -- the only default, and those before the one that it waits for.
  pub installment_monitor_workflow-InOrder :
      (events : List MonitorEvent)
      → InOrder input.number_of_installments
          (installment_monitor_workflow clock answers input events)
  unfolding installment_monitor_workflow
  installment_monitor_workflow-InOrder events =
      monitor_from-InOrder 2 0 events _ refl refl refl (omega arith)
