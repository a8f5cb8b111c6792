-- ===== src/Revival/Loop.antt =====
-- WorkflowLoop of workflow/revival_workflow.go. The loop runs on fuel, a unit for each round.
pub mod Stages
pub mod Induction
pub mod Termination
pub mod Waiting
pub mod Returns
pub mod MonthChange
pub mod Approvals
pub mod Taken
pub mod Checked
pub mod Moved
use revival_integration.Base.{ℕ, zero, suc}
use revival_integration.Revival.State.{RevivalStatus}
use revival_integration.Revival.Case.{RevivalEnv, Case, Round, set_status}
use revival_integration.Revival.DataEntry.{wait_for_data_entry}
use revival_integration.Revival.QualityCheck.{wait_for_quality_check}
use revival_integration.Revival.Approval.{wait_for_approval}

pub data LoopOutcome : Type 0 where
  still_waiting : Case → LoopOutcome
  ended : Case → LoopOutcome
  goes_to_collection : Case → LoopOutcome
  out_of_fuel : Case → LoopOutcome

module _ (env : RevivalEnv) where
  -- The switch on CurrentStatus; a status without a case leaves everything as it is.
  unfoldable pub round_at : RevivalStatus → Case → Round
  round_at RevivalStatus.waiting_for_data_entry c = wait_for_data_entry env c
  round_at RevivalStatus.data_entry_complete c =
      Round.next (set_status RevivalStatus.waiting_for_qc c)
  round_at RevivalStatus.waiting_for_qc c = wait_for_quality_check env c
  round_at RevivalStatus.approval_pending c = wait_for_approval env c
  round_at _ c = Round.next c

  unfoldable pub round : Case → Round
  round c = round_at c.state.current_status c

  unfoldable pub workflow_loop : ℕ → Case → LoopOutcome
  workflow_loop zero c = LoopOutcome.out_of_fuel c
  workflow_loop (suc fuel) c = elim (round c) [
    | Round.next d ↦ workflow_loop fuel d
    | Round.blocked d ↦ LoopOutcome.still_waiting d
    | Round.closed d ↦ LoopOutcome.ended d
    | Round.passed d ↦ LoopOutcome.goes_to_collection d
  ]
