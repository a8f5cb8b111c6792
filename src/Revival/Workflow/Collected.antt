-- ===== src/Revival/Workflow/Collected.antt =====
-- InstallmentRevivalWorkflow as a whole.
use mathlib.Core.Path.{subst}
use revival_integration.Base.{ℕ, ◌+◌, ◌*◌, ◌<◌, ◌≡◌, ◌≢◌, refl, Option, none, arith, inl, length}
use revival_integration.Revival.State.{RevivalStatus, IndexRevivalInput}
use revival_integration.Revival.Case.{
  RevivalEnv, Case, clear_recoverable_workflow_error, set_recoverable_workflow_error,
}
use revival_integration.Revival.Collection.{
  CollectionEvent, collect, collect_first, first_paid, start_monitor,
}
use revival_integration.Revival.Loop.{LoopOutcome, workflow_loop, out_of_fuel}
use revival_integration.Revival.Loop.Stages.{signals_left}
use revival_integration.Revival.Loop.Termination.{workflow_loop-out_of_fuel}
use revival_integration.Revival.Loop.Approvals.{
  EntryIsCurrent, IsApprovedBy, workflow_loop-IsApprovedBy,
}
use revival_integration.Revival.Loop.Taken.{LastTaken}
use revival_integration.Revival.Loop.Moved.{IsMovedOn, workflow_loop-IsMovedOn}
use revival_integration.Revival.Workflow.{
  Arrivals, SetUp, set_up, create_request, register, first_case, first_state, collection_phase,
  after_loop, installment_revival_workflow, ready, panics, spins,
}

-- The loop starts at the data entry, with all the signals there.
set_up-ready :
    (env : RevivalEnv) (input : IndexRevivalInput) (arrivals : Arrivals) {c : Case}
    → set_up env input arrivals ≡ ready c
    → (c.state.current_status ≡ RevivalStatus.waiting_for_data_entry)
      × (signals_left c
          ≡ length arrivals.data_entries
            + length arrivals.quality_checks
            + length arrivals.approvals)
      × (c.approvals ≡ arrivals.approvals)
unfolding set_up create_request register first_case first_state clear_recoverable_workflow_error
    set_recoverable_workflow_error
set_up-ready env input arrivals h = ground arith

collection_phase-panics :
    (env : RevivalEnv) (event : Option CollectionEvent) (c : Case) {d : Case}
    → collection_phase env event c ≡ panics d
    → c.state.sla_start_date ≡ none
unfolding collection_phase collect collect_first first_paid start_monitor
collection_phase-panics env event c h = ground arith

loop-panics :
    (env : RevivalEnv) (fuel : ℕ) (event : Option CollectionEvent) (c : Case) {d : Case}
    (o : LoopOutcome)
    → EntryIsCurrent c
    → workflow_loop env fuel c ≡ o
    → after_loop env event o ≢ panics d
unfolding after_loop IsApprovedBy
loop-panics env fuel event c (LoopOutcome.still_waiting e) i h p = absurd (ground arith)
loop-panics env fuel event c (LoopOutcome.ended e) i h p = absurd (ground arith)
loop-panics env fuel event c (LoopOutcome.out_of_fuel e) i h p = absurd (ground arith)
loop-panics env fuel event c {d} (LoopOutcome.goes_to_collection e) i h p =
    let (pre, sig, taken, approval) = workflow_loop-IsApprovedBy env fuel c {d = e} i h in
    let missing = collection_phase-panics env event e {d = d} p in
    absurd (ground (arith, approval, missing))

loop-spins :
    (env : RevivalEnv) (event : Option CollectionEvent) {d : Case} (o : LoopOutcome)
    → after_loop env event o ≡ spins d
    → o ≡ out_of_fuel d
unfolding after_loop collection_phase
loop-spins env event (LoopOutcome.still_waiting e) p = absurd (ground arith)
loop-spins env event (LoopOutcome.ended e) p = absurd (ground arith)
loop-spins env event (LoopOutcome.goes_to_collection e) p = absurd (ground arith)
loop-spins env event (LoopOutcome.out_of_fuel e) p = ground arith

module _ (env : RevivalEnv) (fuel : ℕ) (input : IndexRevivalInput) (arrivals : Arrivals) where
  -- The start of the installment monitor never reads a nil SLA date, whatever arrives and however the
  -- activities answer.
  pub installment_revival_workflow-panics :
      (d : Case) → installment_revival_workflow env fuel input arrivals ≢ panics d
  unfolding installment_revival_workflow EntryIsCurrent
  installment_revival_workflow-panics d h = from (set_up env input arrivals) refl
    where
      from : (s : SetUp) → set_up env input arrivals ≡ s → ⊥
      from (SetUp.refused c) r = absurd (ground arith)
      from (SetUp.ready c) r =
          loop-panics env fuel arrivals.collection c {d = d} (workflow_loop env fuel c)
            (inl (set_up-ready env input arrivals {c = c} r).0) refl (ground (arith, r, h))

  -- A workflow that is given more than two units of fuel for each signal ends or waits, unless it
  -- stands at DATA_ENTRY_PENDING: then the last signal that it took from the approvals approves the
  -- request, neither returns nor redirects it, and was read in another month than that of the data
  -- entry.
  pub installment_revival_workflow-spins :
      {d : Case}
      → 2
          * (length arrivals.data_entries
              + length arrivals.quality_checks
              + length arrivals.approvals)
        < fuel
      → installment_revival_workflow env fuel input arrivals ≡ spins d
      → (d.state.current_status ≡ RevivalStatus.data_entry_pending)
        × LastTaken (IsMovedOn env d) arrivals.approvals d.approvals
  unfolding installment_revival_workflow
  installment_revival_workflow-spins {d} b h = from (set_up env input arrivals) refl
    where
      from :
          (s : SetUp)
          → set_up env input arrivals ≡ s
          → (d.state.current_status ≡ RevivalStatus.data_entry_pending)
            × LastTaken (IsMovedOn env d) arrivals.approvals d.approvals
      from (SetUp.refused c) r = absurd (ground arith)
      from (SetUp.ready c) r =
          let (starts, left, all) = set_up-ready env input arrivals {c = c} r in
          let spun =
            loop-spins env arrivals.collection {d = d} (workflow_loop env fuel c)
              (ground (arith, r, h)) in
          let stuck =
            workflow_loop-out_of_fuel env fuel c {d = d} (ground (arith, starts))
              (ground (arith, starts, left, b)) spun in
          (
            stuck,
            subst (λ sigs. LastTaken (IsMovedOn env d) sigs d.approvals) all
                (workflow_loop-IsMovedOn env fuel c {d = d} starts spun stuck),
          )
