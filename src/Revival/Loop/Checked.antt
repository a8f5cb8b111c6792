-- ===== src/Revival/Loop/Checked.antt =====
-- The quality check before WorkflowLoop hands a request over to the collection.
use mathlib.Core.Path.{subst}
use revival_integration.Base.{
  ℕ, ◌≡◌, ◌≢◌, refl, true, false, ◌⊎◌, inl, inr, Bool-cases, List, [], ◌∷◌, arith,
}
use revival_integration.Revival.State.{RevivalStatus}
use revival_integration.Revival.Signal.{QualityCheckCompleteSignal}
use revival_integration.Revival.Case.{
  RevivalEnv, Case, next, passed, set_status, retry, return_case_to_indexer,
  clear_recoverable_workflow_error, set_recoverable_workflow_error,
}
use revival_integration.Revival.QualityCheck.{
  wait_for_quality_check, process_quality_check, save_quality_check,
}
use revival_integration.Revival.Loop.{round, round_at, goes_to_collection, workflow_loop}
use revival_integration.Revival.Loop.Induction.{at_collection}
use revival_integration.Revival.Loop.Taken.{
  IsSuffix, LastTaken, IsSuffix-taken, IsSuffix-next, not_passed, wait_for_data_entry-others,
  wait_for_approval-others, wait_for_approval-passed_check,
}

abbrev pub IsPassed : QualityCheckCompleteSignal → Type 0
IsPassed q = (q.qc_passed ≡ true) × (q.return_to_indexer ≡ false)

-- Where the request stands before the approver, the last quality check has passed.
abbrev IsChecked : List QualityCheckCompleteSignal → Case → Type 0
IsChecked checks c =
    IsSuffix checks c.quality_checks
    × ((c.state.current_status ≢ RevivalStatus.approval_pending)
        ⊎ LastTaken IsPassed checks c.quality_checks)

module _ (env : RevivalEnv) (c : Case) {d : Case} where
  failed_check :
      (q : QualityCheckCompleteSignal) (rest : List QualityCheckCompleteSignal)
      → c.quality_checks ≡ q ∷ rest
      → wait_for_quality_check env c ≡ next d
      → (q.qc_passed ≡ false) ⊎ (q.return_to_indexer ≡ true)
      → d.state.current_status ≢ RevivalStatus.approval_pending
  unfolding wait_for_quality_check process_quality_check save_quality_check retry
      return_case_to_indexer clear_recoverable_workflow_error set_recoverable_workflow_error
  failed_check q rest e h (inl f) s = absurd (ground arith)
  failed_check q rest e h (inr r) s = absurd (ground arith)

  taken_check :
      (checks : List QualityCheckCompleteSignal)
      → c.quality_checks ≡ checks
      → wait_for_quality_check env c ≡ next d
      → (q : QualityCheckCompleteSignal) × (c.quality_checks ≡ q ∷ d.quality_checks)
        × ((d.state.current_status ≢ RevivalStatus.approval_pending) ⊎ IsPassed q)
  unfolding wait_for_quality_check process_quality_check save_quality_check retry
      return_case_to_indexer clear_recoverable_workflow_error set_recoverable_workflow_error
  taken_check [] e h = absurd (ground arith)
  taken_check (q ∷ rest) e h = (
    q,
    ground arith,
    elim (Bool-cases q.qc_passed) [
      | inr f ↦ inl (failed_check q rest e h (inl f))
      | inl p ↦ elim (Bool-cases q.return_to_indexer) [
        | inl r ↦ inl (failed_check q rest e h (inr r))
        | inr n ↦ inr (p, n)
      ]
    ],
  )

  round_at-IsChecked :
      (checks : List QualityCheckCompleteSignal) (s : RevivalStatus)
      → c.state.current_status ≡ s
      → IsChecked checks c
      → round_at env s c ≡ next d
      → IsChecked checks d
  unfolding round_at
  round_at-IsChecked checks RevivalStatus.waiting_for_data_entry e (suffix, i) h =
      let (same, _, before, _) = wait_for_data_entry-others env c {d = d} h in
      (subst (IsSuffix checks) same suffix, inl before)
  round_at-IsChecked checks RevivalStatus.waiting_for_qc e (suffix, i) h =
      let (q, took, result) = taken_check c.quality_checks refl h in
      (
        IsSuffix-next suffix took,
        elim result [
          | inl before ↦ inl before
          | inr p ↦ inr (IsSuffix-taken IsPassed suffix took p)
        ],
      )
  round_at-IsChecked checks RevivalStatus.approval_pending e (suffix, i) h =
      let same = wait_for_approval-others env c {d = d} h in
      (
        subst (IsSuffix checks) same suffix,
        elim i [
          | inl before ↦ absurd (before e)
          | inr last ↦ inr (subst (LastTaken IsPassed checks) same last)
        ],
      )
  round_at-IsChecked checks RevivalStatus.data_entry_complete e (suffix, i) h =
      let handed : set_status RevivalStatus.waiting_for_qc c ≡ d = cc in
      subst (IsChecked checks) handed (suffix, inl (λ s. absurd (ground arith)))
  round_at-IsChecked checks _ e i h = let same : c ≡ d = cc in subst (IsChecked checks) same i

  round-passed_check :
      (checks : List QualityCheckCompleteSignal)
      → IsChecked checks c
      → round env c ≡ passed d
      → LastTaken IsPassed checks d.quality_checks
  unfolding round round_at
  round-passed_check checks (suffix, i) h =
      let at : c.state.current_status ≡ RevivalStatus.approval_pending =
        not_passed env c {d = d} _ h in
      let same = wait_for_approval-passed_check env c {d = d} (ground (arith, h, at)) in
      elim i [
        | inl before ↦ absurd (before at)
        | inr last ↦ subst (LastTaken IsPassed checks) same last
      ]

-- A request that starts at the data entry goes to the collection only after a quality check: the
-- last signal that was taken from the checks passed the request and did not return it to the
-- indexer.
pub workflow_loop-LastTaken :
    (env : RevivalEnv) (fuel : ℕ) (c : Case) {d : Case}
    → c.state.current_status ≡ RevivalStatus.waiting_for_data_entry
    → workflow_loop env fuel c ≡ goes_to_collection d
    → LastTaken IsPassed c.quality_checks d.quality_checks
unfolding round
workflow_loop-LastTaken env fuel c {d} starts h =
    at_collection env {P = IsChecked c.quality_checks}
      {R = λ e. LastTaken IsPassed c.quality_checks e.quality_checks}
      (λ e f i r. round_at-IsChecked env e {d = f} c.quality_checks _ refl i r)
      (λ e f i r. round-passed_check env e {d = f} c.quality_checks i r) fuel c {d = d}
      (([], refl), inl (λ s. absurd (ground arith))) h
