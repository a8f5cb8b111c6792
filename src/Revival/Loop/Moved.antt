-- ===== src/Revival/Loop/Moved.antt =====
-- The approval that brings WorkflowLoop to DATA_ENTRY_PENDING.
use text.Mathlib.Text.{◌==◌ as str_eq}
use mathlib.Core.Path.{subst}
use revival_integration.Base.{
  ℕ, ◌-◌, ◌≡◌, ◌≢◌, refl, true, false, ◌⊎◌, inl, inr, Bool-cases, List, [], ◌∷◌, length, arith,
}
use revival_integration.Stdlib.Calendar.Civil.{month_index}
use revival_integration.Revival.State.{RevivalStatus}
use revival_integration.Revival.Signal.{ApprovalDecisionSignal}
use revival_integration.Revival.Case.{
  RevivalEnv, Case, next, set_status, retry, return_case_to_indexer,
  clear_recoverable_workflow_error, set_recoverable_workflow_error,
}
use revival_integration.Revival.Approval.{
  wait_for_approval, process_approval, decide, decide_approved, redirect, reject, approve,
  save_approval, month_has_changed,
}
use revival_integration.Revival.Loop.{LoopOutcome, round, round_at, out_of_fuel, workflow_loop}
use revival_integration.Revival.Loop.Induction.{workflow_loop_ind}
use revival_integration.Revival.Loop.Taken.{
  IsSuffix, LastTaken, IsSuffix-taken, IsSuffix-next, is_moved, wait_for_data_entry-others,
  wait_for_quality_check-others,
}

-- An approval, neither return nor redirect, that is read in another month than the data entry's.
unfoldable pub IsMovedOn : RevivalEnv → Case → ApprovalDecisionSignal → Type 0
IsMovedOn env d sig =
    (sig.is_approved ≡ true)
    × (sig.return_to_indexer ≡ false)
    × (str_eq sig.redirect_to_stage "DATA_ENTRY" ≡ false)
    × (str_eq sig.redirect_to_stage "QC" ≡ false)
    × (month_index d.data_entry.entered_at ≢ month_index (env.clock (length d.events - 1)))

-- At DATA_ENTRY_PENDING, the last approval that was taken came in another month.
abbrev IsMoved : RevivalEnv → List ApprovalDecisionSignal → Case → Type 0
IsMoved env approvals c =
    ((is_moved c.state.current_status ≡ false) × IsSuffix approvals c.approvals)
    ⊎ ((is_moved c.state.current_status ≡ true) × LastTaken (IsMovedOn env c) approvals c.approvals)

module _ (env : RevivalEnv) (c : Case) {d : Case} where
  moved_on :
      (sig : ApprovalDecisionSignal) (rest : List ApprovalDecisionSignal)
      → c.approvals ≡ sig ∷ rest
      → wait_for_approval env c ≡ next d
      → is_moved d.state.current_status ≡ true
      → IsMovedOn env d sig
  unfolding IsMovedOn wait_for_approval process_approval decide decide_approved redirect reject
      approve save_approval retry return_case_to_indexer clear_recoverable_workflow_error
      set_recoverable_workflow_error month_has_changed
  moved_on sig rest e h m =
      (ground arith, ground arith, ground arith, ground arith, (λ same. absurd (ground arith)))

  taken_approval :
      (approvals : List ApprovalDecisionSignal)
      → c.approvals ≡ approvals
      → wait_for_approval env c ≡ next d
      → (sig : ApprovalDecisionSignal) × (c.approvals ≡ sig ∷ d.approvals)
        × ((is_moved d.state.current_status ≡ false)
            ⊎ ((is_moved d.state.current_status ≡ true) × IsMovedOn env d sig))
  unfolding wait_for_approval process_approval decide decide_approved redirect reject approve
      save_approval retry return_case_to_indexer clear_recoverable_workflow_error
      set_recoverable_workflow_error
  taken_approval [] e h = absurd (ground arith)
  taken_approval (sig ∷ rest) e h = (
    sig,
    ground arith,
    elim (Bool-cases (is_moved d.state.current_status)) [
      | inl m ↦ inr (m, moved_on sig rest e h m)
      | inr n ↦ inl n
    ],
  )

  round_at-IsMoved :
      (approvals : List ApprovalDecisionSignal) (s : RevivalStatus)
      → c.state.current_status ≡ s
      → is_moved s ≡ false
      → IsSuffix approvals c.approvals
      → round_at env s c ≡ next d
      → IsMoved env approvals d
  unfolding round_at
  round_at-IsMoved approvals RevivalStatus.waiting_for_data_entry e n suffix h =
      let (_, same, _, stays) = wait_for_data_entry-others env c {d = d} h in
      inl (stays, subst (IsSuffix approvals) same suffix)
  round_at-IsMoved approvals RevivalStatus.waiting_for_qc e n suffix h =
      let (same, stays) = wait_for_quality_check-others env c {d = d} h in
      inl (stays, subst (IsSuffix approvals) same suffix)
  round_at-IsMoved approvals RevivalStatus.approval_pending e n suffix h =
      let (sig, took, result) = taken_approval c.approvals refl h in
      elim result [
        | inl stays ↦ inl (stays, IsSuffix-next suffix took)
        | inr (m, p) ↦ inr (m, IsSuffix-taken (IsMovedOn env d) suffix took p)
      ]
  round_at-IsMoved approvals RevivalStatus.data_entry_complete e n suffix h =
      let handed : set_status RevivalStatus.waiting_for_qc c ≡ d = cc in
      subst (IsMoved env approvals) handed (inl (refl, suffix))
  round_at-IsMoved approvals _ e n suffix h =
      let same : c ≡ d = cc in subst (IsMoved env approvals) same (inl (ground arith, suffix))

  stays_moved : is_moved c.state.current_status ≡ true → round env c ≡ next d → c ≡ d
  unfolding round round_at
  stays_moved m h = from c.state.current_status refl m h
    where
      from :
          (s : RevivalStatus)
          → c.state.current_status ≡ s
          → is_moved s ≡ true
          → round_at env s c ≡ next d
          → c ≡ d
      from RevivalStatus.data_entry_pending e m h = cc
      from _ e m h = absurd (ground arith)

  round-IsMoved :
      (approvals : List ApprovalDecisionSignal)
      → IsMoved env approvals c
      → round env c ≡ next d
      → IsMoved env approvals d
  unfolding round
  round-IsMoved approvals (inl (n, suffix)) h = round_at-IsMoved approvals _ refl n suffix h
  round-IsMoved approvals (inr (m, last)) h =
      subst (IsMoved env approvals) (stays_moved m h) (inr (m, last))

-- A loop that is still at DATA_ENTRY_PENDING when the fuel is used up was brought there by the last
-- approval that it took.
pub workflow_loop-IsMovedOn :
    (env : RevivalEnv) (fuel : ℕ) (c : Case) {d : Case}
    → c.state.current_status ≡ RevivalStatus.waiting_for_data_entry
    → workflow_loop env fuel c ≡ out_of_fuel d
    → d.state.current_status ≡ RevivalStatus.data_entry_pending
    → LastTaken (IsMovedOn env d) c.approvals d.approvals
workflow_loop-IsMovedOn env fuel c {d} starts h at =
    let Moved : LoopOutcome → Type 0 = λ o. o ≡ out_of_fuel d → IsMoved env c.approvals d in
    let found =
      workflow_loop_ind env {P = IsMoved env c.approvals} {Q = Moved}
        (record {
          on_next = λ e f i r. round-IsMoved env e {d = f} c.approvals i r;
          on_blocked = λ _ _ _ _ s. absurd (ground arith);
          on_closed = λ _ _ _ _ s. absurd (ground arith);
          on_passed = λ _ _ _ _ s. absurd (ground arith);
          on_fuel = λ e i s. subst (IsMoved env c.approvals) (ground arith) i;
        })
        fuel c (inl (ground arith, ([], refl))) h in
    elim found [ inl (n, _) ↦ absurd (ground arith) | inr (_, last) ↦ last ]
