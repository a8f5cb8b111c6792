-- ===== src/Revival/Loop/Taken.antt =====
-- Which signals the rounds of WorkflowLoop take from their channels.
use mathlib.Core.Path.{subst}
use mathlib.Core.List.{append_assoc}
use revival_integration.Base.{
  ◌≡◌, ◌≢◌, refl, sym, ap, ◌∙◌, Bool, true, false, List, [], ◌∷◌, ◌++◌, arith,
}
use revival_integration.Revival.State.{RevivalStatus}
use revival_integration.Revival.Signal.{ApprovalDecisionSignal}
use revival_integration.Revival.Case.{
  RevivalEnv, Case, next, passed, retry, return_case_to_indexer, clear_recoverable_workflow_error,
  set_recoverable_workflow_error,
}
use revival_integration.Revival.DataEntry.{
  wait_for_data_entry, process_data_entry, save_data_entry, adjust_suspense,
}
use revival_integration.Revival.QualityCheck.{
  wait_for_quality_check, process_quality_check, save_quality_check,
}
use revival_integration.Revival.Approval.{
  wait_for_approval, process_approval, decide, decide_approved, redirect, reject, approve,
  save_approval,
}
use revival_integration.Revival.Loop.{round_at}

module _ {A : Type 0} where
  -- Some of the signals were taken.
  abbrev pub IsSuffix : List A → List A → Type 0
  IsSuffix before after = (pre : List A) × (before ≡ pre ++ after)

  -- The last signal that was taken satisfies P.
  abbrev pub LastTaken : (A → Type 0) → List A → List A → Type 0
  LastTaken P before after = (pre : List A) × (x : A) × (before ≡ pre ++ (x ∷ after)) × P x

  pub IsSuffix-taken :
      (P : A → Type 0) {before between after : List A} {x : A}
      → IsSuffix before between
      → between ≡ x ∷ after
      → P x
      → LastTaken P before after
  IsSuffix-taken P {x = x} (pre, s) e p = (pre, x, s ∙ ap (λ l. pre ++ l) e, p)

  pub LastTaken-IsSuffix :
      (P : A → Type 0) {before after : List A} → LastTaken P before after → IsSuffix before after
  LastTaken-IsSuffix P {after = after} (pre, x, s, _) =
      (pre ++ (x ∷ []), s ∙ sym (append_assoc pre (x ∷ []) after))

  pub IsSuffix-next :
      {before between after : List A} {x : A}
      → IsSuffix before between
      → between ≡ x ∷ after
      → IsSuffix before after
  IsSuffix-next s e = LastTaken-IsSuffix (λ _. Unit {0}) (IsSuffix-taken (λ _. Unit {0}) s e tt)

-- DATA_ENTRY_PENDING
abbrev pub is_moved : RevivalStatus → Bool
is_moved RevivalStatus.data_entry_pending = true
is_moved _ = false

module _ (env : RevivalEnv) (c : Case) {d : Case} where
  pub not_passed :
      (s : RevivalStatus) → round_at env s c ≡ passed d → s ≡ RevivalStatus.approval_pending
  unfolding round_at wait_for_data_entry process_data_entry save_data_entry adjust_suspense
      wait_for_quality_check process_quality_check save_quality_check retry return_case_to_indexer
  not_passed RevivalStatus.approval_pending h = refl
  not_passed RevivalStatus.waiting_for_data_entry h = absurd (ground arith)
  not_passed RevivalStatus.waiting_for_qc h = absurd (ground arith)
  not_passed _ h = absurd (ground arith)

  pub wait_for_data_entry-others :
      wait_for_data_entry env c ≡ next d
      → (c.quality_checks ≡ d.quality_checks)
        × (c.approvals ≡ d.approvals)
        × (d.state.current_status ≢ RevivalStatus.approval_pending)
        × (is_moved d.state.current_status ≡ false)
  unfolding wait_for_data_entry process_data_entry save_data_entry adjust_suspense retry
      return_case_to_indexer clear_recoverable_workflow_error set_recoverable_workflow_error
  wait_for_data_entry-others h =
      (ground arith, ground arith, (λ s. absurd (ground arith)), ground arith)

  pub wait_for_quality_check-others :
      wait_for_quality_check env c ≡ next d
      → (c.approvals ≡ d.approvals) × (is_moved d.state.current_status ≡ false)
  unfolding wait_for_quality_check process_quality_check save_quality_check retry
      return_case_to_indexer clear_recoverable_workflow_error set_recoverable_workflow_error
  wait_for_quality_check-others h = (ground arith, ground arith)

  pub wait_for_approval-others :
      wait_for_approval env c ≡ next d → c.quality_checks ≡ d.quality_checks
  unfolding wait_for_approval process_approval decide decide_approved redirect reject approve
      save_approval retry return_case_to_indexer clear_recoverable_workflow_error
      set_recoverable_workflow_error
  wait_for_approval-others h = ground arith

  pub wait_for_approval-passed :
      (sig : ApprovalDecisionSignal) (rest : List ApprovalDecisionSignal)
      → c.approvals ≡ sig ∷ rest
      → wait_for_approval env c ≡ passed d
      → c.approvals ≡ sig ∷ d.approvals
  unfolding wait_for_approval process_approval decide decide_approved redirect reject approve
      save_approval retry return_case_to_indexer clear_recoverable_workflow_error
      set_recoverable_workflow_error
  wait_for_approval-passed sig rest e h = ground arith

  pub wait_for_approval-passed_check :
      wait_for_approval env c ≡ passed d → c.quality_checks ≡ d.quality_checks
  unfolding wait_for_approval process_approval decide decide_approved redirect reject approve
      save_approval retry return_case_to_indexer clear_recoverable_workflow_error
      set_recoverable_workflow_error
  wait_for_approval-passed_check h = ground arith

  wait_for_approval-suffix :
      (sigs : List ApprovalDecisionSignal)
      → c.approvals ≡ sigs
      → wait_for_approval env c ≡ next d
      → (sig : ApprovalDecisionSignal) × (c.approvals ≡ sig ∷ d.approvals)
  unfolding wait_for_approval process_approval decide decide_approved redirect reject approve
      save_approval retry return_case_to_indexer clear_recoverable_workflow_error
      set_recoverable_workflow_error
  wait_for_approval-suffix [] e h = absurd (ground arith)
  wait_for_approval-suffix (sig ∷ rest) e h = (sig, ground arith)

  pub round_at-approvals :
      (approvals : List ApprovalDecisionSignal) (s : RevivalStatus)
      → IsSuffix approvals c.approvals
      → round_at env s c ≡ next d
      → IsSuffix approvals d.approvals
  unfolding round_at
  round_at-approvals approvals RevivalStatus.waiting_for_data_entry suffix h =
      subst (IsSuffix approvals) (wait_for_data_entry-others h).1 suffix
  round_at-approvals approvals RevivalStatus.waiting_for_qc suffix h =
      subst (IsSuffix approvals) (wait_for_quality_check-others h).0 suffix
  round_at-approvals approvals RevivalStatus.approval_pending suffix h =
      IsSuffix-next suffix (wait_for_approval-suffix c.approvals refl h).1
  round_at-approvals approvals _ suffix h =
      let same : c.approvals ≡ d.approvals = ground arith in subst (IsSuffix approvals) same suffix
