-- ===== src/Revival/Collection/Single.antt =====
-- A revival in one installment.
use revival_integration.Base.{
  ℕ, ◌≡◌, refl, ◌∙◌, ◌<>◌, none, some, false, Option, List, [], ◌∷◌, String, pos, arith,
}
use revival_integration.Stdlib.Duration.{Time}
use revival_integration.Revival.State.{RevivalStatus, InstallmentMonitorInput}
use revival_integration.Revival.Signal.{FirstCollectionCompleteSignal}
use revival_integration.Revival.Case.{
  RevivalEnv, Case, Event, clear_recoverable_workflow_error, set_recoverable_workflow_error,
}
use revival_integration.Revival.Collection.{
  CollectionEvent, collect, completed, collect_first, start_monitor, no_pending_installments,
  pending_installments, first_paid, monitor_input,
}
use revival_integration.Revival.Monitor.{
  MonitorEvent, all_done, monitor_from, installment_monitor_workflow,
}

-- The monitor of one installment ends at once.
single_monitor :
    (clock : ℕ → Time) (answers : ℕ → Option String) (input : InstallmentMonitorInput)
    (events : List MonitorEvent)
    → input.number_of_installments ≡ pos 1
    → installment_monitor_workflow clock answers input events
      ≡ all_done (record { current_expected_installment = 2; calls = [] })
unfolding installment_monitor_workflow monitor_from
single_monitor clock answers input [] h = ground arith
single_monitor clock answers input (MonitorEvent.payment sig ∷ events) h = ground arith
single_monitor clock answers input (MonitorEvent.fell_due ∷ events) h = ground arith

no_wait :
    (env : RevivalEnv) (c : Case)
    → c.suspense.has_suspense ≡ false
    → (no_pending_installments env c ≡ false)
      × (pending_installments env c ≡ c.state.number_of_installments)
unfolding no_pending_installments pending_installments
no_wait env c h = ground arith

start_monitor-completed :
    (env : RevivalEnv) (c : Case) (start : Option Time) {d : Case}
    → c.state.sla_start_date ≡ start
    → start_monitor env c ≡ completed d
    → (t : Time) × (d.events
        ≡ Event.start_installment_monitor
            ("installment-monitor-" <> c.state.request_id)
            (monitor_input env t c)
          ∷ c.events)
      × (d.state.current_status ≡ c.state.current_status)
unfolding start_monitor clear_recoverable_workflow_error set_recoverable_workflow_error
start_monitor-completed env c none e h = absurd (ground arith)
start_monitor-completed env c (some t) e h = (t, ground arith, ground arith)

-- The first collection of a revival in one installment and without suspense starts a monitor that
-- ends at once and does nothing, whatever it receives, and the activity that completes a revival is
-- not called: the request stays ACTIVE.
pub single_installment_not_finalized :
    (env : RevivalEnv) (sig : FirstCollectionCompleteSignal) (c : Case) {d : Case}
    → c.suspense.has_suspense ≡ false
    → c.state.number_of_installments ≡ pos 1
    → collect env (CollectionEvent.first_collection sig) c ≡ completed d
    → (id : String) × (input : InstallmentMonitorInput) × (d.events
        ≡ Event.start_installment_monitor id input ∷ Event.received_first_collection ∷ c.events)
      × (d.state.current_status ≡ RevivalStatus.active)
      × ((clock : ℕ → Time) (answers : ℕ → Option String) (events : List MonitorEvent)
          → installment_monitor_workflow clock answers input events
            ≡ all_done (record { current_expected_installment = 2; calls = [] }))
unfolding collect collect_first first_paid monitor_input
single_installment_not_finalized env sig c {d} s n h =
    let paid = first_paid c in
    let (waits, pending) = no_wait env paid s in
    let (t, events, status) =
      start_monitor-completed env paid paid.state.sla_start_date {d = d} refl
        (ground (arith, waits, h)) in
    (
      _,
      monitor_input env t paid,
      events,
      status,
      λ clock answers es. single_monitor clock answers _ es (pending ∙ n),
    )
