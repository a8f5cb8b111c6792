-- ===== src/Revival/DataEntry.antt =====
-- The case WAITING_FOR_DATA_ENTRY of WorkflowLoop in workflow/revival_workflow.go.
use revival_integration.Base.{true, none, some, [], ◌∷◌, if◌then◌else◌, length}
use revival_integration.Revival.State.{RevivalStatus, DataEntryInput}
use revival_integration.Revival.Signal.{DataEntryCompleteSignal, decode_into}
use revival_integration.Revival.Maturity.{validate_maturity_date_constraint}
use revival_integration.Revival.Case.{
  Desk, ReturnReason, Event, Answer, RevivalEnv, Case, Round, time_of, note, update, set_status,
  clear_recoverable_workflow_error, retry, acknowledge, return_case_to_indexer,
}

-- dataEntryInput
unfoldable pub data_entry_input : DataEntryCompleteSignal → DataEntryInput
data_entry_input sig = record {
  data_entered_by = sig.entered_by;
  revival_type = sig.revival_type;
  number_of_installments = sig.number_of_installments;
  revival_amount = sig.revival_amount;
  installment_amount = sig.installment_amount;
  data_entry_timestamp = sig.entered_at;
  missing_documents = sig.missing_documents;
  documents = sig.documents;
  sgst = sig.sgst;
  cgst = sig.cgst;
  interest = sig.interest;
  medical_examiner_code = sig.medical_examiner_code;
  medical_examiner_name = sig.medical_examiner_name;
}

-- PROCESSING_DATA_ENTRY, with the number of installments and the pointer to the entry's date.
abbrev pub processing : Case → Case
processing c =
    update
      (record c.state {
        current_status = RevivalStatus.processing_data_entry;
        number_of_installments = c.data_entry.number_of_installments;
        has_data_entry_date = true;
      })
      c

module _ (env : RevivalEnv) where
  -- CheckAndAdjustSuspenseActivity and what follows it.
  unfoldable pub adjust_suspense : Case → Round
  adjust_suspense c =
      let asked =
        note
          (Event.check_and_adjust_suspense c.state.request_id c.state.policy_number
            c.data_entry.revival_amount)
          c in
      elim (env.suspense (length asked.events)) [
        | Answer.failed err ↦
            retry env RevivalStatus.waiting_for_data_entry "Unable to process suspense adjustment"
              err asked
        | Answer.result found ↦ Round.next (
            set_status RevivalStatus.data_entry_complete
              (clear_recoverable_workflow_error (record asked { suspense = found })))
      ]

  -- UpdateDataEntryActivity and what follows it.
  unfoldable pub save_data_entry : Case → Round
  save_data_entry c =
      acknowledge env (Event.update_data_entry c.state.request_id (data_entry_input c.data_entry))
        (retry env RevivalStatus.waiting_for_data_entry "Unable to save data entry details")
        adjust_suspense (processing c)

  -- What follows Receive, with the signal in the variable.
  unfoldable pub process_data_entry : Case → Round
  process_data_entry c =
      if c.data_entry.return_to_indexer
      then return_case_to_indexer env Desk.data_entry RevivalStatus.waiting_for_data_entry
          (ReturnReason.stated c.data_entry.return_reason)
          "Unable to return request to indexer from data entry" c
      else elim (validate_maturity_date_constraint c.state.maturity_date
          c.data_entry.number_of_installments (time_of env c)) [
            | some violation ↦
                return_case_to_indexer env Desk.data_entry RevivalStatus.waiting_for_data_entry
                  (ReturnReason.maturity_violated Desk.data_entry violation)
                  "Unable to return request to indexer after maturity validation failure" c
            | none ↦ save_data_entry c
          ]

  unfoldable pub wait_for_data_entry : Case → Round
  wait_for_data_entry c =
      let cleared = clear_recoverable_workflow_error c in
      elim c.data_entries [
        | [] ↦ Round.blocked cleared
        | sig ∷ rest ↦ process_data_entry (
            note (Event.received Desk.data_entry)
              (record cleared { data_entry = decode_into c.data_entry sig; data_entries = rest }))
      ]
