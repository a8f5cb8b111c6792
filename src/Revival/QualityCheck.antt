-- ===== src/Revival/QualityCheck.antt =====
-- The case WAITING_FOR_QC of WorkflowLoop in workflow/revival_workflow.go.
use revival_integration.Base.{none, some, [], ◌∷◌, if◌then◌else◌}
use revival_integration.Revival.State.{RevivalStatus}
use revival_integration.Revival.Signal.{QualityCheckCompleteSignal}
use revival_integration.Revival.Maturity.{validate_maturity_date_constraint}
use revival_integration.Revival.Case.{
  Desk, ReturnReason, Event, RevivalEnv, Case, Round, time_of, note, set_status,
  clear_recoverable_workflow_error, retry, acknowledge, return_case_to_indexer,
}

module _ (env : RevivalEnv) where
  -- UpdateQCActivity and what follows it.
  unfoldable pub save_quality_check : QualityCheckCompleteSignal → Case → Round
  save_quality_check sig c =
      acknowledge env
        (Event.update_qc c.state.request_id sig.performed_by sig.qc_comments sig.qc_passed
          sig.missing_documents)
        (retry env RevivalStatus.waiting_for_qc "Unable to save quality check details")
        (λ saved. Round.next (
          set_status
            (if sig.qc_passed
              then RevivalStatus.approval_pending
              else RevivalStatus.waiting_for_data_entry)
            (clear_recoverable_workflow_error saved)))
        (set_status RevivalStatus.processing_qc c)

  unfoldable pub process_quality_check : QualityCheckCompleteSignal → Case → Round
  process_quality_check sig c =
      if sig.return_to_indexer
      then return_case_to_indexer env Desk.qc RevivalStatus.waiting_for_qc
          (ReturnReason.stated sig.return_reason)
          "Unable to return request to indexer from quality check" c
      else elim (validate_maturity_date_constraint c.state.maturity_date
          c.state.number_of_installments (time_of env c)) [
            | some violation ↦
                return_case_to_indexer env Desk.qc RevivalStatus.waiting_for_qc
                  (ReturnReason.maturity_violated Desk.qc violation)
                  "Unable to return request to indexer after QC maturity validation failure" c
            | none ↦ save_quality_check sig c
          ]

  unfoldable pub wait_for_quality_check : Case → Round
  wait_for_quality_check c =
      let cleared = clear_recoverable_workflow_error c in
      elim c.quality_checks [
        | [] ↦ Round.blocked cleared
        | sig ∷ rest ↦
            process_quality_check sig
              (note (Event.received Desk.qc) (record cleared { quality_checks = rest }))
      ]
