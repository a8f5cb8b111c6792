-- ===== src/Revival/Loop/Returns.antt =====
-- What a data-entry signal leaves in the variable for the next one.
use text.Mathlib.Text.{◌==◌ as str_eq}
use revival_integration.Base.{ℕ, ◌≡◌, ◌≢◌, true, arith, List, ◌∷◌}
use revival_integration.Revival.State.{RevivalStatus}
use revival_integration.Revival.Signal.{DataEntryCompleteSignal, decode_into}
use revival_integration.Revival.Case.{
  RevivalEnv, Case, Event, Desk, next, passed, retry, return_case_to_indexer,
  clear_recoverable_workflow_error, set_recoverable_workflow_error,
}
use revival_integration.Revival.DataEntry.{
  wait_for_data_entry, process_data_entry, save_data_entry, adjust_suspense, data_entry_input,
}
use revival_integration.Revival.Loop.{round, round_at, goes_to_collection, workflow_loop}
use revival_integration.Revival.Loop.Induction.{at_collection}

module _ (env : RevivalEnv) where
  return_repeated :
      (c : Case) {d : Case}
      → c.data_entry.return_to_indexer ≡ true
      → wait_for_data_entry env c ≡ next d
      → (d.state.current_status ≡ RevivalStatus.waiting_for_data_entry)
        × (d.data_entry.return_to_indexer ≡ true)
  unfolding wait_for_data_entry process_data_entry retry return_case_to_indexer
      clear_recoverable_workflow_error set_recoverable_workflow_error decode_into
  return_repeated c t h = ground arith

  return_not_passed :
      (c : Case) {d : Case}
      → c.data_entry.return_to_indexer ≡ true
      → wait_for_data_entry env c ≢ passed d
  unfolding wait_for_data_entry process_data_entry retry return_case_to_indexer decode_into
      clear_recoverable_workflow_error
  return_not_passed c t h = ground arith

  -- Once the data entry has returned a request to the indexer and the activity has failed, no later
  -- data entry is taken, a correct one included: the flag stays in the variable, and the request
  -- never goes to the collection.
  pub returned_request_not_collected :
      (fuel : ℕ) (c d : Case)
      → c.state.current_status ≡ RevivalStatus.waiting_for_data_entry
      → c.data_entry.return_to_indexer ≡ true
      → workflow_loop env fuel c ≢ goes_to_collection d
  unfolding round round_at
  returned_request_not_collected fuel c d s t h =
      let IsReturned = λ (e : Case).
        (e.state.current_status ≡ RevivalStatus.waiting_for_data_entry)
        × (e.data_entry.return_to_indexer ≡ true) in
      at_collection env {P = IsReturned} {R = λ _. ⊥}
        (λ e f p r. return_repeated e {d = f} p.1 (ground (arith, p.0, r)))
        (λ e f p r. absurd (return_not_passed e {d = f} p.1 (ground (arith, p.0, r)))) fuel c
        {d = d} (s, t) h

  -- A data entry that reports no missing documents, after one that did, is saved with the missing
  -- documents of the one before.
  pub resubmission_keeps_missing_documents :
      (c : Case) (sig : DataEntryCompleteSignal) (rest : List DataEntryCompleteSignal) {d : Case}
      → c.data_entries ≡ sig ∷ rest
      → str_eq sig.missing_documents "" ≡ true
      → wait_for_data_entry env c ≡ next d
      → d.state.current_status ≡ RevivalStatus.data_entry_complete
      → (d.data_entry.missing_documents ≡ c.data_entry.missing_documents)
        × (d.events
            ≡ Event.check_and_adjust_suspense c.state.request_id c.state.policy_number
                sig.revival_amount
              ∷ Event.update_data_entry c.state.request_id
                  (record (data_entry_input (decode_into c.data_entry sig)) {
                    missing_documents = c.data_entry.missing_documents;
                  })
              ∷ Event.received Desk.data_entry
              ∷ c.events)
  unfolding wait_for_data_entry process_data_entry save_data_entry adjust_suspense retry
      return_case_to_indexer clear_recoverable_workflow_error set_recoverable_workflow_error
      data_entry_input decode_into
  resubmission_keeps_missing_documents c sig rest e m h s = ground arith
