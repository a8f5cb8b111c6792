-- ===== src/Revival/Loop/Approvals.antt =====
-- What a request has passed when WorkflowLoop hands it over to the collection.
use revival_integration.Base.{
  String, ℕ, ◌+◌, ◌-◌, ◌*◌, ◌≡◌, refl, true, false, some, none, arith, ◌⊎◌, List, [], ◌∷◌, length,
}
use revival_integration.Stdlib.Duration.{day}
use revival_integration.Stdlib.Calendar.Civil.{month_index}
use revival_integration.Revival.State.{RevivalStatus}
use revival_integration.Revival.Signal.{DataEntryCompleteSignal, ApprovalDecisionSignal}
use revival_integration.Revival.Maturity.{validate_maturity_date_constraint}
use revival_integration.Revival.Case.{
  Desk, ReturnReason, Event, note, RevivalEnv, Case, next, passed, retry, return_case_to_indexer,
  clear_recoverable_workflow_error, set_recoverable_workflow_error,
}
use revival_integration.Revival.DataEntry.{
  data_entry_input, processing, wait_for_data_entry, process_data_entry, save_data_entry,
  adjust_suspense,
}
use revival_integration.Revival.QualityCheck.{
  wait_for_quality_check, process_quality_check, save_quality_check,
}
use revival_integration.Revival.Approval.{
  wait_for_approval, process_approval, decide, decide_approved, redirect, reject, approve,
  save_approval, month_has_changed,
}
use revival_integration.Revival.Loop.{round, round_at, goes_to_collection, workflow_loop}
use revival_integration.Revival.Loop.Induction.{at_collection}
use revival_integration.Revival.Loop.Taken.{
  IsSuffix, LastTaken, IsSuffix-taken, not_passed, wait_for_approval-passed, round_at-approvals,
}

-- Past the data entry, the state has the entry's date and its number of installments.
unfoldable pub EntryIsCurrent : Case → Type 0
EntryIsCurrent c =
    (c.state.current_status ≡ RevivalStatus.waiting_for_data_entry)
    ⊎ ((c.state.has_data_entry_date ≡ true)
        × (c.state.number_of_installments ≡ c.data_entry.number_of_installments))

module _ (env : RevivalEnv) (c : Case) {d : Case} where
  adjust_suspense-EntryIsCurrent :
      c.state.has_data_entry_date ≡ true
      → c.state.number_of_installments ≡ c.data_entry.number_of_installments
      → adjust_suspense env c ≡ next d
      → EntryIsCurrent d
  unfolding EntryIsCurrent adjust_suspense retry clear_recoverable_workflow_error
      set_recoverable_workflow_error
  adjust_suspense-EntryIsCurrent i n h = ground arith

  return_case_to_indexer-EntryIsCurrent :
      (desk : Desk) (reason : ReturnReason) (message : String)
      → return_case_to_indexer env desk RevivalStatus.waiting_for_data_entry reason message c
        ≡ next d
      → EntryIsCurrent d
  unfolding EntryIsCurrent return_case_to_indexer retry
  return_case_to_indexer-EntryIsCurrent desk reason message h = ground arith

module _ (env : RevivalEnv) (c : Case) {d : Case} where
  save_data_entry-EntryIsCurrent : save_data_entry env c ≡ next d → EntryIsCurrent d
  unfolding EntryIsCurrent save_data_entry retry
  save_data_entry-EntryIsCurrent h =
      let saved =
        note (Event.update_data_entry c.state.request_id (data_entry_input c.data_entry))
          (processing c) in
      ground (arith, adjust_suspense-EntryIsCurrent env saved {d = d} refl refl)

module _ (env : RevivalEnv) (c : Case) {d : Case} where
  process_data_entry-EntryIsCurrent : process_data_entry env c ≡ next d → EntryIsCurrent d
  unfolding process_data_entry
  process_data_entry-EntryIsCurrent h = grind (
    arith,
    h,
    save_data_entry-EntryIsCurrent env c {d = d},
    return_case_to_indexer-EntryIsCurrent env c {d = d},
  )

module _ (env : RevivalEnv) (c : Case) {d : Case} where
  received_data_entry-EntryIsCurrent :
      (sigs : List DataEntryCompleteSignal)
      → c.data_entries ≡ sigs
      → wait_for_data_entry env c ≡ next d
      → EntryIsCurrent d
  unfolding wait_for_data_entry
  received_data_entry-EntryIsCurrent [] e h = absurd (ground arith)
  received_data_entry-EntryIsCurrent (sig ∷ rest) e h =
      process_data_entry-EntryIsCurrent env _ (rw e at h)

  wait_for_data_entry-EntryIsCurrent : wait_for_data_entry env c ≡ next d → EntryIsCurrent d
  wait_for_data_entry-EntryIsCurrent h = received_data_entry-EntryIsCurrent c.data_entries refl h

  wait_for_quality_check-entry :
      wait_for_quality_check env c ≡ next d
      → (d.state.has_data_entry_date ≡ c.state.has_data_entry_date)
        × (d.state.number_of_installments ≡ c.state.number_of_installments)
        × (d.data_entry ≡ c.data_entry)
  unfolding wait_for_quality_check process_quality_check save_quality_check retry
      return_case_to_indexer clear_recoverable_workflow_error set_recoverable_workflow_error
  wait_for_quality_check-entry h = ground arith

  wait_for_approval-entry :
      wait_for_approval env c ≡ next d
      → (d.state.has_data_entry_date ≡ c.state.has_data_entry_date)
        × (d.state.number_of_installments ≡ c.state.number_of_installments)
        × (d.data_entry ≡ c.data_entry)
  unfolding wait_for_approval process_approval decide decide_approved redirect reject approve
      save_approval retry return_case_to_indexer clear_recoverable_workflow_error
      set_recoverable_workflow_error
  wait_for_approval-entry h = ground arith

  round_at-EntryIsCurrent :
      (s : RevivalStatus)
      → c.state.current_status ≡ s
      → EntryIsCurrent c
      → round_at env s c ≡ next d
      → EntryIsCurrent d
  unfolding round_at EntryIsCurrent
  round_at-EntryIsCurrent RevivalStatus.waiting_for_data_entry e i h =
      wait_for_data_entry-EntryIsCurrent h
  round_at-EntryIsCurrent RevivalStatus.waiting_for_qc e i h =
      ground (arith, wait_for_quality_check-entry h)
  round_at-EntryIsCurrent RevivalStatus.approval_pending e i h =
      ground (arith, wait_for_approval-entry h)
  round_at-EntryIsCurrent _ e i h = ground arith

-- Every round that goes on keeps the entry current.
pub round-EntryIsCurrent :
    (env : RevivalEnv) (c d : Case) → EntryIsCurrent c → round env c ≡ next d → EntryIsCurrent d
unfolding round
round-EntryIsCurrent env c d i h = round_at-EntryIsCurrent env c {d = d} _ refl i h

-- The signal, and the time at which it was read.
unfoldable pub IsApprovedBy : RevivalEnv → ApprovalDecisionSignal → Case → Type 0
IsApprovedBy env sig d =
    let decided = env.clock (length d.events - 2) in
    (sig.is_approved ≡ true)
    × (sig.return_to_indexer ≡ false)
    × (d.state.current_status ≡ RevivalStatus.approved)
    × (d.state.sla_start_date ≡ some sig.approved_at)
    × (d.state.sla_end_date ≡ some (sig.approved_at + 60 * day))
    × (validate_maturity_date_constraint d.state.maturity_date d.data_entry.number_of_installments
          decided
        ≡ none)
    × (month_index d.data_entry.entered_at ≡ month_index decided)

process_approval-passed :
    (env : RevivalEnv) (sig : ApprovalDecisionSignal) (c : Case) {d : Case}
    → c.state.has_data_entry_date ≡ true
    → c.state.number_of_installments ≡ c.data_entry.number_of_installments
    → process_approval env sig c ≡ passed d
    → IsApprovedBy env sig d
unfolding IsApprovedBy process_approval decide decide_approved redirect reject approve save_approval
    retry return_case_to_indexer clear_recoverable_workflow_error month_has_changed
process_approval-passed env sig c i n h = ground arith

module _ (env : RevivalEnv) (c : Case) {d : Case} where
  taken_approval :
      (sigs : List ApprovalDecisionSignal)
      → c.approvals ≡ sigs
      → c.state.has_data_entry_date ≡ true
      → c.state.number_of_installments ≡ c.data_entry.number_of_installments
      → wait_for_approval env c ≡ passed d
      → (sig : ApprovalDecisionSignal) × (c.approvals ≡ sig ∷ d.approvals) × IsApprovedBy env sig d
  unfolding wait_for_approval clear_recoverable_workflow_error
  taken_approval [] e i n h = absurd (ground arith)
  taken_approval (sig ∷ rest) e i n h = (
    sig,
    wait_for_approval-passed env c {d = d} sig rest e h,
    process_approval-passed env sig _ {d = d} i n (rw e at h),
  )

  round-passed :
      EntryIsCurrent c
      → round env c ≡ passed d
      → (sig : ApprovalDecisionSignal) × (c.approvals ≡ sig ∷ d.approvals) × IsApprovedBy env sig d
  unfolding round round_at EntryIsCurrent
  round-passed i h =
      let at : c.state.current_status ≡ RevivalStatus.approval_pending =
        not_passed env c {d = d} _ h in
      let current : (c.state.has_data_entry_date ≡ true)
          × (c.state.number_of_installments ≡ c.data_entry.number_of_installments) =
        ground arith in
      taken_approval c.approvals refl current.0 current.1 (ground (arith, h, at))

round-approvals :
    (env : RevivalEnv) (c d : Case) (approvals : List ApprovalDecisionSignal)
    → IsSuffix approvals c.approvals
    → round env c ≡ next d
    → IsSuffix approvals d.approvals
unfolding round
round-approvals env c d approvals suffix h = round_at-approvals env c {d = d} approvals _ suffix h

-- A request that starts at the data entry, or with its entry's date and number of installments in
-- the state, goes to the collection only by an approval: the last signal that was taken from the
-- approvals approves it and is no return to the indexer. It was read in the month of the data entry,
-- the maturity constraint held then for the entry's number of installments, and the SLA dates are
-- the approval's date and 60 days later.
pub workflow_loop-IsApprovedBy :
    (env : RevivalEnv) (fuel : ℕ) (c : Case) {d : Case}
    → EntryIsCurrent c
    → workflow_loop env fuel c ≡ goes_to_collection d
    → LastTaken (λ sig. IsApprovedBy env sig d) c.approvals d.approvals
workflow_loop-IsApprovedBy env fuel c {d} i h =
    at_collection env {P = λ e. EntryIsCurrent e × IsSuffix c.approvals e.approvals}
      {R = λ e. LastTaken (λ sig. IsApprovedBy env sig e) c.approvals e.approvals}
      (λ e f p r. (round-EntryIsCurrent env e f p.0 r, round-approvals env e f c.approvals p.1 r))
      (λ e f p r.
        let (sig, took, approval) = round-passed env e {d = f} p.0 r in
        IsSuffix-taken (λ s. IsApprovedBy env s f) p.1 took approval)
      fuel c {d = d} (i, ([], refl)) h
