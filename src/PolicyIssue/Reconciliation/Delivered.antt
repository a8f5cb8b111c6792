-- ===== src/PolicyIssue/Reconciliation/Delivered.antt =====
-- What a run of PMSignalReconciliationWorkflow leaves to do where nothing fails.
use text.Mathlib.Text.{◌==◌ as str_eq}
use text.Mathlib.TextPositions.{eq_refl}
use mathlib.Core.Path.{subst}
use mathlib.Core.List.{map}
use revival_integration.Base.{
  ℕ, ◌≤◌, ◌≡◌, refl, sym, ap, ◌∙◌, Bool, not, ◌&&◌, ◌||◌, ◌<>◌, if◌then◌else◌, true, false, none,
  List, [], ◌∷◌, String, ◌-◌, ◌*◌, any, keep, length, take-all, Bool-cases, inl, inr, arith,
}
use revival_integration.Stdlib.Duration.{Time, minute}
use revival_integration.PolicyIssue.Reconciliation.Selected.{
  found, signalled, workflow_ids, turned, reconcile-signalled,
}
use revival_integration.PolicyIssue.Reconciliation.Sorted.{length-by_issue_date, any-by_issue_date}
use revival_integration.PolicyIssue.Reconciliation.{
  SignalRow, StartPmLifecycleInput, DeliveryEnv, Delivery, on_policy, increment, send_at,
  mark_pm_signal_sent, after_signalling, start_pm_lifecycle_activity, is_unsignalled, target_of,
  by_issue_date, reconcile, pm_signal_reconciliation_workflow,
}

-- One of the inputs is for the policy.
abbrev among : List StartPmLifecycleInput → String → Bool
among ts number = any (λ t. str_eq number t.policy_number) ts

-- A row that waits for its signal, and none of the inputs is for it.
abbrev left_out : Time → ℕ → List StartPmLifecycleInput → List SignalRow → Bool
left_out cutoff max ts =
    any (λ row. is_unsignalled cutoff max row && not (among ts row.policy_number))

abbrev pub has_numbers : List StartPmLifecycleInput → Bool
has_numbers ts = not (any (λ t. str_eq t.policy_number "") ts)

-- A policy that was told of is no longer left out.
left_out-sent :
    (cutoff : Time) (max : ℕ) (t : StartPmLifecycleInput) (ts : List StartPmLifecycleInput)
    (at : Time) (id : String) (rows : List SignalRow)
    → left_out cutoff max (t ∷ ts) rows ≡ false
    → left_out cutoff max ts
        (on_policy t.policy_number (send_at at id) (on_policy t.policy_number increment rows))
      ≡ false
unfolding is_unsignalled
left_out-sent cutoff max t ts at id [] h = refl
left_out-sent cutoff max t ts at id (row ∷ rows) h =
    elim (Bool-cases (str_eq row.policy_number t.policy_number)) [
      | inl e ↦ rw (e, e) (left_out-sent cutoff max t ts at id rows (ground arith))
      | inr e ↦
          let rest = left_out-sent cutoff max t ts at id rows (ground arith) in
          rw (e, e) (ground arith)
    ]

left_out-none :
    (cutoff : Time) (max : ℕ) (rows : List SignalRow)
    → left_out cutoff max [] rows ≡ false
    → keep (is_unsignalled cutoff max) rows ≡ []
left_out-none cutoff max [] h = refl
left_out-none cutoff max (row ∷ rows) h = ground (arith, left_out-none cutoff max rows)

-- Only which policies the inputs are for counts.
left_out-same :
    (cutoff : Time) (max : ℕ) (ts us : List StartPmLifecycleInput)
    → ((n : String) → among ts n ≡ among us n)
    → (rows : List SignalRow) → left_out cutoff max ts rows ≡ left_out cutoff max us rows
left_out-same cutoff max ts us same [] = refl
left_out-same cutoff max ts us same (row ∷ rows) =
    let rest = left_out-same cutoff max ts us same rows in
    let here = same row.policy_number in
    ap (λ b. (is_unsignalled cutoff max row && not b) || left_out cutoff max ts rows) here
    ∙ ap (λ b. (is_unsignalled cutoff max row && not (among us row.policy_number)) || b) rest

among-more :
    (t : StartPmLifecycleInput) (ts : List StartPmLifecycleInput) (cutoff : Time) (max : ℕ)
    (rows : List SignalRow)
    → left_out cutoff max ts rows ≡ false
    → left_out cutoff max (t ∷ ts) rows ≡ false
among-more t ts cutoff max [] h = refl
among-more t ts cutoff max (row ∷ rows) h = ground (arith, among-more t ts cutoff max rows)

-- The rows that wait are all among the inputs made from them.
covered :
    (cutoff : Time) (max : ℕ) (rows : List SignalRow)
    → left_out cutoff max (map target_of (keep (is_unsignalled cutoff max) rows)) rows ≡ false
covered cutoff max [] = refl
covered cutoff max (row ∷ rows) =
    let Covers : List SignalRow → Type 0 =
      λ kept. left_out cutoff max (map target_of kept) (row ∷ rows) ≡ false in
    let kept = keep (is_unsignalled cutoff max) rows in
    let rest = covered cutoff max rows in
    elim (Bool-cases (is_unsignalled cutoff max row)) [
      | inl w ↦
          let whole : keep (is_unsignalled cutoff max) (row ∷ rows) ≡ row ∷ kept = rw (w) refl in
          let more = among-more (target_of row) (map target_of kept) cutoff max rows rest in
          subst Covers (sym whole) (ground (arith, eq_refl row.policy_number, more))
      | inr w ↦
          let whole : keep (is_unsignalled cutoff max) (row ∷ rows) ≡ kept = rw (w) refl in
          subst Covers (sym whole) (ground (arith, rest, w))
    ]

module _ (env : DeliveryEnv) (stored : (n : ℕ) → env.store_error n ≡ none)
    (sent : (n : ℕ) → env.signal_error n ≡ none) where
  start-left_out :
      (cutoff : Time) (max : ℕ) (t : StartPmLifecycleInput) (ts : List StartPmLifecycleInput)
      (d : Delivery)
      → str_eq t.policy_number "" ≡ false
      → left_out cutoff max (t ∷ ts) d.rows ≡ false
      → left_out cutoff max ts (start_pm_lifecycle_activity env t d).0.rows ≡ false
  unfolding start_pm_lifecycle_activity after_signalling mark_pm_signal_sent
  start-left_out cutoff max t ts d named h =
      let swept = λ (at : Time) (id : String). left_out-sent cutoff max t ts at id d.rows h in
      grind (arith, stored, sent, swept)

  reconcile-left_out :
      (cutoff : Time) (max : ℕ) (ts : List StartPmLifecycleInput) (d : Delivery)
      → has_numbers ts ≡ true
      → left_out cutoff max ts d.rows ≡ false
      → keep (is_unsignalled cutoff max) (reconcile env ts d).rows ≡ []
  unfolding reconcile
  reconcile-left_out cutoff max [] d n h = left_out-none cutoff max d.rows h
  reconcile-left_out cutoff max (t ∷ ts) d n h =
      reconcile-left_out cutoff max ts (start_pm_lifecycle_activity env t d).0 (ground arith)
        (start-left_out cutoff max t ts d (ground arith) h)

  start-accepted :
      (t : StartPmLifecycleInput) (d : Delivery)
      → (start_pm_lifecycle_activity env t d).0.accepted ≡ (
          if str_eq t.policy_number ""
          then d.accepted
          else ("plw-" <> t.policy_number) ∷ d.accepted)
  unfolding start_pm_lifecycle_activity after_signalling mark_pm_signal_sent
  start-accepted t d = grind (arith, stored, sent)

  reconcile-accepted :
      (ts : List StartPmLifecycleInput) (d : Delivery)
      → (reconcile env ts d).accepted ≡ turned (workflow_ids ts) d.accepted
  unfolding reconcile
  reconcile-accepted [] d = refl
  reconcile-accepted (t ∷ ts) d =
      let rest = reconcile-accepted ts (start_pm_lifecycle_activity env t d).0 in
      elim (Bool-cases (str_eq t.policy_number "")) [
        | inl e ↦ rw (e) (rest ∙ rw (start-accepted t d, e) refl)
        | inr e ↦ rw (e) (rest ∙ rw (start-accepted t d, e) refl)
      ]

  -- Where nothing fails and the policies that wait for their signal are at most 100 and have policy
  -- numbers, a run asks Temporal to signal the lifecycle workflow of each of them, once for each row
  -- and in the order of their issue dates, Temporal accepts each of these signals, and afterwards no
  -- row waits that the query of that time would select.
  pub pm_signal_reconciliation_workflow-delivered :
      (rows : List SignalRow)
      → let waiting = keep (is_unsignalled (env.clock 0 - 30 * minute) 20) in
        length (waiting rows) ≤ 100
        → has_numbers (map target_of (waiting rows)) ≡ true
        → let out =
            pm_signal_reconciliation_workflow env
              (record { rows = rows; calls = []; accepted = [] }) in
          let told = turned (workflow_ids (map target_of (by_issue_date (waiting rows)))) [] in
          (signalled out.0.calls ≡ told) × (out.0.accepted ≡ told) × (waiting out.0.rows ≡ [])
  pm_signal_reconciliation_workflow-delivered rows few named =
      let cutoff = env.clock 0 - 30 * minute in
      let kept = keep (is_unsignalled cutoff 20) rows in
      let targets = map target_of (by_issue_date kept) in
      let all =
        take-all 100 (by_issue_date kept) (ground (arith, length-by_issue_date kept, few)) in
      let has = ap not (any-by_issue_date (λ t. str_eq t.policy_number "") kept) ∙ named in
      let whole =
        left_out-same cutoff 20 targets (map target_of kept)
          (λ n. any-by_issue_date (λ t. str_eq n t.policy_number) kept) rows
        ∙ covered cutoff 20 rows in
      rw (found env (record { rows = rows; calls = []; accepted = [] }) (stored 1), all)
        (
          reconcile-signalled env targets _,
          reconcile-accepted targets _,
          reconcile-left_out cutoff 20 targets _ has whole,
        )
