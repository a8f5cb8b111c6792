-- ===== src/Surrender/Forced/Batches.antt =====
-- What the forced surrender workflows hand to their activities.
use mathlib.Core.List.{append_assoc, append-nil}
use revival_integration.Base.{
  ℕ, zero, suc, ◌≤◌, ◌≡◌, refl, sym, ap, ◌∙◌, List, [], ◌∷◌, ◌++◌, String, ◌<>◌, ℤ, pos, negsuc,
  arith, length, take, drop, take-drop, length-drop,
}
use revival_integration.Revival.Case.{Answer}
use revival_integration.Surrender.Forced.{
  ForcedSurrenderWorkflowInput, ForcedSurrenderWorkflowResult, ForcedCall, ForcedEnv, evaluated,
  reminder_batch_size, create_reminders, initiate_expired, check_windows, evaluate,
  forced_surrender_workflow, monitor_windows, payment_window_monitor_workflow,
}

abbrev pub repeated : ℕ → String → List String
repeated zero s = []
repeated (suc n) s = s ∷ repeated n s

batch_size_positive : (size : ℤ) → (n : ℕ) × (reminder_batch_size size ≡ suc n)
unfolding reminder_batch_size
batch_size_positive (pos zero) = (49, refl)
batch_size_positive (pos (suc n)) = (n, refl)
batch_size_positive (negsuc n) = (49, refl)

repeated-snoc :
    (n : ℕ) (s : String) (l : List String) → repeated n s ++ (s ∷ l) ≡ s ∷ (repeated n s ++ l)
repeated-snoc zero s l = refl
repeated-snoc (suc n) s l = ap (λ r. s ∷ r) (repeated-snoc n s l)

module _ {Policy Window : Type 0} where
  -- The policies in the batches, in the order of the batches.
  abbrev pub submitted : List (ForcedCall Policy Window) → List Policy
  submitted [] = []
  submitted (ForcedCall.create_reminders_batch b ∷ calls) = submitted calls ++ b
  submitted (_ ∷ calls) = submitted calls

  -- The dates of the checks for expired windows.
  abbrev pub checked_dates : List (ForcedCall Policy Window) → List String
  checked_dates [] = []
  checked_dates (ForcedCall.check_expired_payment_windows date ∷ calls) = date ∷ checked_dates calls
  checked_dates (_ ∷ calls) = checked_dates calls

  module _ (env : ForcedEnv Policy Window) where
    create_reminders-submitted :
        (fuel n : ℕ) (ps : List Policy) (total : ℕ) (calls : List (ForcedCall Policy Window))
        → length ps ≤ fuel
        → submitted (create_reminders env fuel (suc n) ps total calls).1 ≡ submitted calls ++ ps
    unfolding create_reminders
    create_reminders-submitted zero n [] total calls b = sym (append-nil _)
    create_reminders-submitted zero n (p ∷ ps) total calls b = absurd (omega arith)
    create_reminders-submitted (suc fuel) n [] total calls b = sym (append-nil _)
    create_reminders-submitted (suc fuel) n (p ∷ ps) total calls b =
        create_reminders-submitted fuel n (drop (suc n) (p ∷ ps)) _
          (ForcedCall.create_reminders_batch (take (suc n) (p ∷ ps)) ∷ calls)
          (omega (arith, length-drop n p ps))
        ∙ append_assoc (submitted calls) (take (suc n) (p ∷ ps)) (drop (suc n) (p ∷ ps))
        ∙ ap (λ l. submitted calls ++ l) (take-drop (suc n) (p ∷ ps))

    check_windows-submitted :
        (date : String) (calls : List (ForcedCall Policy Window))
        → (submitted (check_windows env date calls).1 ≡ submitted calls)
          × (checked_dates (check_windows env date calls).1 ≡ date ∷ checked_dates calls)
    unfolding check_windows initiate_expired
    check_windows-submitted date calls = (ground arith, ground arith)

    evaluate-submitted :
        (input : ForcedSurrenderWorkflowInput) (ps : List Policy)
        (calls : List (ForcedCall Policy Window)) {r : ForcedSurrenderWorkflowResult}
        {last : List (ForcedCall Policy Window)}
        → evaluate env input ps calls ≡ evaluated r last
        → (submitted last ≡ submitted calls ++ ps) × (r.policies_evaluated ≡ length ps)
    unfolding evaluate
    evaluate-submitted input ps calls {r} {last} h =
        let (n, size) = batch_size_positive input.batch_size in
        let fuel = length ps in
        let reminded =
          (create_reminders env fuel (reminder_batch_size input.batch_size) ps 0 calls).1 in
        let batches : submitted reminded ≡ submitted calls ++ ps =
          rw size (create_reminders-submitted fuel n ps 0 calls (omega arith)) in
        let monitored =
          ForcedCall.start_window_monitor ("payment-window-monitor-" <> input.evaluation_date)
            input.evaluation_date
          ∷ reminded in
        let (checked, _) = check_windows-submitted input.evaluation_date monitored in
        let same : (check_windows env input.evaluation_date monitored).1 ≡ last = cc in
        (ap submitted (sym same) ∙ checked ∙ batches, ground (arith, h))

    -- A forced surrender evaluation that finds policies hands every one of them to the reminders,
    -- once and in order, whatever the size of the batches and whether or not a batch fails.
    pub forced_surrender_workflow-submitted :
        (input : ForcedSurrenderWorkflowInput) (ps : List Policy)
        {r : ForcedSurrenderWorkflowResult} {last : List (ForcedCall Policy Window)}
        → env.eligible 1 ≡ Answer.result ps
        → forced_surrender_workflow env input ≡ evaluated r last
        → (submitted last ≡ ps) × (r.policies_evaluated ≡ length ps)
    unfolding forced_surrender_workflow
    forced_surrender_workflow-submitted input [] {r} {last} found h = ground arith
    forced_surrender_workflow-submitted input (p ∷ ps) {r} {last} found h =
        evaluate-submitted input (p ∷ ps)
          (ForcedCall.identify_eligible_policies input.evaluation_date 6 ∷ []) {r = r} {last = last}
          (ground (arith, found, h))

    monitor_windows-checked_dates :
        (days : ℕ) (date : String) (calls : List (ForcedCall Policy Window))
        → checked_dates (monitor_windows env days date calls)
          ≡ repeated days date ++ checked_dates calls
    unfolding monitor_windows
    monitor_windows-checked_dates zero date calls = refl
    monitor_windows-checked_dates (suc days) date calls =
        monitor_windows-checked_dates days date _
        ∙ ap (λ l. repeated days date ++ l) (check_windows-submitted date calls).1
        ∙ repeated-snoc days date (checked_dates calls)

    -- The monitor checks for expired payment windows on 90 days, and always as of the day on which
    -- it was started.
    pub payment_window_monitor_workflow-checked_dates :
        (date : String)
        → checked_dates (payment_window_monitor_workflow env date) ≡ repeated 90 date
    unfolding payment_window_monitor_workflow
    payment_window_monitor_workflow-checked_dates date =
        monitor_windows-checked_dates 90 date [] ∙ append-nil _
