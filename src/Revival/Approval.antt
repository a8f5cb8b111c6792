-- ===== src/Revival/Approval.antt =====
-- The case APPROVAL_PENDING of WorkflowLoop in workflow/revival_workflow.go.
use text.Mathlib.Text.{◌==◌ as str_eq}
use revival_integration.Base.{
  ◌+◌, ◌*◌, Bool, not, ◌&&◌, none, some, [], ◌∷◌, ◌==◌, if◌then◌else◌, String,
}
use revival_integration.Stdlib.Duration.{Time, day}
use revival_integration.Stdlib.Calendar.Civil.{month_index}
use revival_integration.Revival.State.{RevivalStatus}
use revival_integration.Revival.Signal.{ApprovalDecisionSignal}
use revival_integration.Revival.Maturity.{validate_maturity_date_constraint}
use revival_integration.Revival.Case.{
  Desk, ReturnReason, Event, RevivalEnv, Case, Round, time_of, note, update, set_status,
  clear_recoverable_workflow_error, retry, acknowledge, return_case_to_indexer,
}

module _ (env : RevivalEnv) where
  -- UpdateRevivalStatusActivity, to send the case back to a stage.
  unfoldable pub redirect : RevivalStatus → RevivalStatus → String → Case → Round
  redirect stored stage message c =
      acknowledge env (Event.update_revival_status c.state.request_id stored)
        (retry env RevivalStatus.approval_pending message) (λ d. Round.next (set_status stage d)) c

  unfoldable pub reject : Case → Round
  reject c =
      acknowledge env (Event.update_revival_status c.state.request_id RevivalStatus.rejected)
        (retry env RevivalStatus.approval_pending "Unable to save rejection decision")
        (λ d. Round.closed (
          update
            (record d.state {
              current_status = RevivalStatus.rejected;
              completed_at = some (time_of env d);
            })
            d))
        c

  -- `slaStartDate.Add(60 * 24 * time.Hour)`
  abbrev pub sla_end : ApprovalDecisionSignal → Time
  sla_end sig = sig.approved_at + 60 * day

  -- UpdateApprovalActivity and what follows it.
  unfoldable pub save_approval : ApprovalDecisionSignal → Case → Round
  save_approval sig c =
      acknowledge env
        (Event.update_approval c.state.ticket_id sig.approved_by sig.comments sig.approved_at
          (sla_end sig))
        (retry env RevivalStatus.approval_pending "Unable to save approval details")
        (λ d.
          let cleared = clear_recoverable_workflow_error d in
          Round.passed (
            update
              (record cleared.state {
                current_status = RevivalStatus.approved;
                sla_start_date = some sig.approved_at;
                sla_end_date = some (sla_end sig);
              })
              cleared))
        c

  -- UpdateWorkflowStateActivity and what follows it.
  unfoldable pub approve : ApprovalDecisionSignal → Case → Round
  approve sig c =
      acknowledge env
        (Event.update_workflow_state c.state.request_id RevivalStatus.approved sig.approved_at
          (sla_end sig))
        (retry env RevivalStatus.approval_pending "Unable to persist approval SLA details")
        (save_approval sig) (set_status RevivalStatus.processing_approval c)

  -- The month or the year of the data entry, in the zone of its timestamp, is not the present one,
  -- which workflow.Now gives in UTC.
  unfoldable pub month_has_changed : Case → Bool
  month_has_changed c =
      c.state.has_data_entry_date
      && not (month_index c.data_entry.entered_at == month_index (time_of env c))

  unfoldable pub decide_approved : ApprovalDecisionSignal → Case → Round
  decide_approved sig c =
      if month_has_changed c
      then redirect RevivalStatus.data_entry_pending RevivalStatus.data_entry_pending
          "Unable to redirect request to data entry for month change" c
      else approve sig c

  -- From the redirect path on. Any other text than the two stages is no redirect.
  unfoldable pub decide : ApprovalDecisionSignal → Case → Round
  decide sig c =
      if str_eq sig.redirect_to_stage "DATA_ENTRY"
      then redirect RevivalStatus.data_entry_pending RevivalStatus.waiting_for_data_entry
          "Unable to redirect request to data entry" c
      else if str_eq sig.redirect_to_stage "QC"
      then redirect RevivalStatus.data_entry_complete RevivalStatus.waiting_for_qc
          "Unable to redirect request to quality check" c
      else if not sig.is_approved
      then reject c
      else decide_approved sig c

  unfoldable pub process_approval : ApprovalDecisionSignal → Case → Round
  process_approval sig c =
      if sig.return_to_indexer
      then return_case_to_indexer env Desk.approval RevivalStatus.approval_pending
          (ReturnReason.stated sig.return_reason)
          "Unable to return request to indexer from approval" c
      else elim (validate_maturity_date_constraint c.state.maturity_date
          c.state.number_of_installments (time_of env c)) [
            | some violation ↦
                return_case_to_indexer env Desk.approval RevivalStatus.approval_pending
                  (ReturnReason.maturity_violated Desk.approval violation)
                  "Unable to return request to indexer after approval maturity validation failure" c
            | none ↦ decide sig c
          ]

  unfoldable pub wait_for_approval : Case → Round
  wait_for_approval c =
      let cleared = clear_recoverable_workflow_error c in
      elim c.approvals [
        | [] ↦ Round.blocked cleared
        | sig ∷ rest ↦
            process_approval sig
              (note (Event.received Desk.approval) (record cleared { approvals = rest }))
      ]
