-- ===== src/Revival/Loop/MonthChange.antt =====
-- An approval that comes in another month than the data entry.
use text.Mathlib.Text.{◌==◌ as str_eq}
use revival_integration.Base.{ℕ, suc, ◌≡◌, refl, ◌≢◌, true, false, none, arith, List, ◌∷◌, length}
use revival_integration.Stdlib.Calendar.Civil.{month_index}
use revival_integration.Revival.State.{RevivalStatus}
use revival_integration.Revival.Signal.{ApprovalDecisionSignal}
use revival_integration.Revival.Maturity.{validate_maturity_date_constraint}
use revival_integration.Revival.Case.{
  RevivalEnv, Case, Event, Desk, note, set_status, clear_recoverable_workflow_error, next,
}
use revival_integration.Revival.Approval.{
  wait_for_approval, process_approval, decide, decide_approved, redirect, month_has_changed,
}
use revival_integration.Revival.Loop.{round, round_at, out_of_fuel, workflow_loop}
use revival_integration.Revival.Loop.Termination.{pending_spins}

-- The case that the redirect leaves behind.
abbrev pub sent_back : Case → List ApprovalDecisionSignal → Case
sent_back c rest = set_status RevivalStatus.data_entry_pending (
    note (Event.update_revival_status c.state.request_id RevivalStatus.data_entry_pending) (
      note (Event.received Desk.approval)
        (record (clear_recoverable_workflow_error c) { approvals = rest })))

-- The approval is read one event after the present ones, and the activity answers two after them.
module _ (env : RevivalEnv) (c : Case) (sig : ApprovalDecisionSignal)
    (rest : List ApprovalDecisionSignal) where
  process_month_change :
      sig.is_approved ≡ true
      → sig.return_to_indexer ≡ false
      → str_eq sig.redirect_to_stage "DATA_ENTRY" ≡ false
      → str_eq sig.redirect_to_stage "QC" ≡ false
      → c.state.has_data_entry_date ≡ true
      → month_index c.data_entry.entered_at ≢ month_index (env.clock (suc (length c.events)))
      → validate_maturity_date_constraint c.state.maturity_date c.state.number_of_installments
          (env.clock (suc (length c.events)))
        ≡ none
      → env.acknowledged (suc (suc (length c.events))) ≡ none
      → process_approval env sig (
          note
            (Event.received Desk.approval)
            (record (clear_recoverable_workflow_error c) { approvals = rest }))
        ≡ next (sent_back c rest)
  unfolding process_approval decide decide_approved redirect month_has_changed
      clear_recoverable_workflow_error
  process_month_change a r t u i m v k = ground arith

  -- An approval in another month than the data entry sets DATA_ENTRY_PENDING, in the database and in
  -- the state, and then the loop never ends: it is out of fuel whatever the fuel, if the approval is
  -- no return and no redirect to a stage, the constraint holds and the database answers.
  pub approved_in_another_month_spins :
      (fuel : ℕ)
      → c.state.current_status ≡ RevivalStatus.approval_pending
      → c.approvals ≡ sig ∷ rest
      → sig.is_approved ≡ true
      → sig.return_to_indexer ≡ false
      → str_eq sig.redirect_to_stage "DATA_ENTRY" ≡ false
      → str_eq sig.redirect_to_stage "QC" ≡ false
      → c.state.has_data_entry_date ≡ true
      → month_index c.data_entry.entered_at ≢ month_index (env.clock (suc (length c.events)))
      → validate_maturity_date_constraint c.state.maturity_date c.state.number_of_installments
          (env.clock (suc (length c.events)))
        ≡ none
      → env.acknowledged (suc (suc (length c.events))) ≡ none
      → workflow_loop env (suc fuel) c ≡ out_of_fuel (sent_back c rest)
  unfolding workflow_loop round round_at wait_for_approval
  approved_in_another_month_spins fuel s q a r t u i m v k =
      ground (
        arith,
        process_month_change a r t u i m v k,
        pending_spins env fuel (sent_back c rest) refl,
      )
