-- ===== src/Revival/Loop/Stages.antt =====
-- WorkflowLoop against the stages that a request passes through.
use mathlib.Core.Path.{subst, subst₂}
use revival_integration.Base.{refl, sym, ℕ, suc, ◌+◌, ◌≡◌, Bool, true, false, arith, length}
use revival_integration.Revival.State.{RevivalStatus}
use revival_integration.Revival.Case.{
  RevivalEnv, Case, next, retry, return_case_to_indexer, clear_recoverable_workflow_error,
  set_recoverable_workflow_error, set_status,
}
use revival_integration.Revival.DataEntry.{
  wait_for_data_entry, process_data_entry, save_data_entry, adjust_suspense,
}
use revival_integration.Revival.QualityCheck.{
  wait_for_quality_check, process_quality_check, save_quality_check,
}
use revival_integration.Revival.Approval.{
  wait_for_approval, process_approval, decide, decide_approved, redirect, reject, approve,
  save_approval,
}
use revival_integration.Revival.Loop.{round, round_at}

-- The signals that wait in the three channels.
abbrev pub signals_left : Case → ℕ
signals_left c = length c.data_entries + length c.quality_checks + length c.approvals

-- The stages, and the steps between them: every step but the one to quality check takes a signal.
pub data Stage : RevivalStatus → ℕ → RevivalStatus → ℕ → Type 0 where
  entry_repeated :
      {n : ℕ}
      → Stage RevivalStatus.waiting_for_data_entry (suc n) RevivalStatus.waiting_for_data_entry n
  entered :
      {n : ℕ}
      → Stage RevivalStatus.waiting_for_data_entry (suc n) RevivalStatus.data_entry_complete n
  handed_on : {n : ℕ} → Stage RevivalStatus.data_entry_complete n RevivalStatus.waiting_for_qc n
  check_repeated :
      {n : ℕ} → Stage RevivalStatus.waiting_for_qc (suc n) RevivalStatus.waiting_for_qc n
  check_failed :
      {n : ℕ} → Stage RevivalStatus.waiting_for_qc (suc n) RevivalStatus.waiting_for_data_entry n
  check_passed :
      {n : ℕ} → Stage RevivalStatus.waiting_for_qc (suc n) RevivalStatus.approval_pending n
  approval_repeated :
      {n : ℕ} → Stage RevivalStatus.approval_pending (suc n) RevivalStatus.approval_pending n
  sent_to_entry :
      {n : ℕ} → Stage RevivalStatus.approval_pending (suc n) RevivalStatus.waiting_for_data_entry n
  sent_to_check :
      {n : ℕ} → Stage RevivalStatus.approval_pending (suc n) RevivalStatus.waiting_for_qc n
  month_changed :
      {n : ℕ} → Stage RevivalStatus.approval_pending (suc n) RevivalStatus.data_entry_pending n
  spinning : {n : ℕ} → Stage RevivalStatus.data_entry_pending n RevivalStatus.data_entry_pending n

abbrev follows_entry : RevivalStatus → Bool
follows_entry RevivalStatus.waiting_for_data_entry = true
follows_entry RevivalStatus.data_entry_complete = true
follows_entry _ = false

abbrev follows_check : RevivalStatus → Bool
follows_check RevivalStatus.waiting_for_qc = true
follows_check RevivalStatus.waiting_for_data_entry = true
follows_check RevivalStatus.approval_pending = true
follows_check _ = false

abbrev follows_approval : RevivalStatus → Bool
follows_approval RevivalStatus.approval_pending = true
follows_approval RevivalStatus.waiting_for_data_entry = true
follows_approval RevivalStatus.waiting_for_qc = true
follows_approval RevivalStatus.data_entry_pending = true
follows_approval _ = false

wait_for_data_entry-next :
    (env : RevivalEnv) (c : Case) {d : Case}
    → wait_for_data_entry env c ≡ next d
    → (follows_entry d.state.current_status ≡ true) × (signals_left c ≡ suc (signals_left d))
unfolding wait_for_data_entry process_data_entry save_data_entry adjust_suspense retry
    return_case_to_indexer clear_recoverable_workflow_error set_recoverable_workflow_error
wait_for_data_entry-next env c h = ground arith

wait_for_quality_check-next :
    (env : RevivalEnv) (c : Case) {d : Case}
    → wait_for_quality_check env c ≡ next d
    → (follows_check d.state.current_status ≡ true) × (signals_left c ≡ suc (signals_left d))
unfolding wait_for_quality_check process_quality_check save_quality_check retry
    return_case_to_indexer clear_recoverable_workflow_error set_recoverable_workflow_error
wait_for_quality_check-next env c h = ground arith

wait_for_approval-next :
    (env : RevivalEnv) (c : Case) {d : Case}
    → wait_for_approval env c ≡ next d
    → (follows_approval d.state.current_status ≡ true) × (signals_left c ≡ suc (signals_left d))
unfolding wait_for_approval process_approval decide decide_approved redirect reject approve
    save_approval retry return_case_to_indexer clear_recoverable_workflow_error
    set_recoverable_workflow_error
wait_for_approval-next env c h = ground arith

entry_stage :
    (s : RevivalStatus) (n : ℕ)
    → follows_entry s ≡ true
    → Stage RevivalStatus.waiting_for_data_entry (suc n) s n
entry_stage RevivalStatus.waiting_for_data_entry n h = Stage.entry_repeated
entry_stage RevivalStatus.data_entry_complete n h = Stage.entered
entry_stage _ n h = absurd (ground arith)

check_stage :
    (s : RevivalStatus) (n : ℕ)
    → follows_check s ≡ true
    → Stage RevivalStatus.waiting_for_qc (suc n) s n
check_stage RevivalStatus.waiting_for_qc n h = Stage.check_repeated
check_stage RevivalStatus.waiting_for_data_entry n h = Stage.check_failed
check_stage RevivalStatus.approval_pending n h = Stage.check_passed
check_stage _ n h = absurd (ground arith)

approval_stage :
    (s : RevivalStatus) (n : ℕ)
    → follows_approval s ≡ true
    → Stage RevivalStatus.approval_pending (suc n) s n
approval_stage RevivalStatus.approval_pending n h = Stage.approval_repeated
approval_stage RevivalStatus.waiting_for_data_entry n h = Stage.sent_to_entry
approval_stage RevivalStatus.waiting_for_qc n h = Stage.sent_to_check
approval_stage RevivalStatus.data_entry_pending n h = Stage.month_changed
approval_stage _ n h = absurd (ground arith)

-- The statuses in which the loop stands between two rounds.
abbrev pub is_stage : RevivalStatus → Bool
is_stage RevivalStatus.waiting_for_data_entry = true
is_stage RevivalStatus.data_entry_complete = true
is_stage RevivalStatus.waiting_for_qc = true
is_stage RevivalStatus.approval_pending = true
is_stage RevivalStatus.data_entry_pending = true
is_stage _ = false

round_at-Stage :
    (env : RevivalEnv) (s : RevivalStatus) (c : Case) {d : Case}
    → is_stage s ≡ true
    → c.state.current_status ≡ s
    → round_at env s c ≡ next d
    → Stage s (signals_left c) d.state.current_status (signals_left d)
unfolding round_at
round_at-Stage env RevivalStatus.waiting_for_data_entry c {d} t e h =
    let (follows, left) = wait_for_data_entry-next env c {d = d} h in
    subst
      (λ n. Stage RevivalStatus.waiting_for_data_entry n d.state.current_status (signals_left d))
      (sym left) (entry_stage _ _ follows)
round_at-Stage env RevivalStatus.waiting_for_qc c {d} t e h =
    let (follows, left) = wait_for_quality_check-next env c {d = d} h in
    subst (λ n. Stage RevivalStatus.waiting_for_qc n d.state.current_status (signals_left d))
      (sym left) (check_stage _ _ follows)
round_at-Stage env RevivalStatus.approval_pending c {d} t e h =
    let (follows, left) = wait_for_approval-next env c {d = d} h in
    subst (λ n. Stage RevivalStatus.approval_pending n d.state.current_status (signals_left d))
      (sym left) (approval_stage _ _ follows)
round_at-Stage env RevivalStatus.data_entry_complete c {d} t e h =
    let handed : set_status RevivalStatus.waiting_for_qc c ≡ d = cc in
    subst
      (λ x.
        Stage RevivalStatus.data_entry_complete (signals_left c) x.state.current_status
          (signals_left x))
      handed Stage.handed_on
round_at-Stage env RevivalStatus.data_entry_pending c {d} t e h =
    let status : d.state.current_status ≡ RevivalStatus.data_entry_pending = cc in
    let left : signals_left d ≡ signals_left c = cc in
    subst₂ (λ t n. Stage RevivalStatus.data_entry_pending (signals_left c) t n) (sym status)
      (sym left) Stage.spinning
round_at-Stage env _ c t e h = absurd (ground arith)

-- Every round of the loop that goes on makes one of the steps between the stages, and takes as many
-- signals as that step.
pub round-Stage :
    (env : RevivalEnv) (c : Case) {d : Case}
    → is_stage c.state.current_status ≡ true
    → round env c ≡ next d
    → Stage c.state.current_status (signals_left c) d.state.current_status (signals_left d)
unfolding round
round-Stage env c {d} t h = round_at-Stage env _ c {d = d} t refl h

pub Stage-is_stage : {s t : RevivalStatus} {m n : ℕ} → Stage s m t n → is_stage t ≡ true
Stage-is_stage Stage.entry_repeated = refl
Stage-is_stage Stage.entered = refl
Stage-is_stage Stage.handed_on = refl
Stage-is_stage Stage.check_repeated = refl
Stage-is_stage Stage.check_failed = refl
Stage-is_stage Stage.check_passed = refl
Stage-is_stage Stage.approval_repeated = refl
Stage-is_stage Stage.sent_to_entry = refl
Stage-is_stage Stage.sent_to_check = refl
Stage-is_stage Stage.month_changed = refl
Stage-is_stage Stage.spinning = refl
