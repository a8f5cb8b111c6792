-- ===== src/Revival/Loop/Termination.antt =====
-- How long WorkflowLoop runs.
use revival_integration.Base.{ℕ, zero, suc, ◌+◌, ◌*◌, ◌<◌, ◌≡◌, refl, ◌⊎◌, inl, inr, true, arith}
use revival_integration.Revival.State.{RevivalStatus}
use revival_integration.Revival.Case.{RevivalEnv, Case, Round}
use revival_integration.Revival.Loop.{round, round_at, workflow_loop, out_of_fuel}
use revival_integration.Revival.Loop.Stages.{
  Stage, round-Stage, Stage-is_stage, is_stage, signals_left,
}

-- The automatic step out of DATA_ENTRY_COMPLETE takes no signal.
abbrev handing_on : RevivalStatus → ℕ
handing_on RevivalStatus.data_entry_complete = 1
handing_on _ = 0

-- The rounds that the loop can still make.
abbrev pub rounds_left : RevivalStatus → ℕ → ℕ
rounds_left s n = 2 * n + handing_on s

Stage-rounds_left :
    {s t : RevivalStatus} {m n : ℕ}
    → Stage s m t n
    → (t ≡ RevivalStatus.data_entry_pending) ⊎ (rounds_left t n < rounds_left s m)
Stage-rounds_left Stage.entry_repeated = inr (omega arith)
Stage-rounds_left Stage.entered = inr (omega arith)
Stage-rounds_left Stage.handed_on = inr (omega arith)
Stage-rounds_left Stage.check_repeated = inr (omega arith)
Stage-rounds_left Stage.check_failed = inr (omega arith)
Stage-rounds_left Stage.check_passed = inr (omega arith)
Stage-rounds_left Stage.approval_repeated = inr (omega arith)
Stage-rounds_left Stage.sent_to_entry = inr (omega arith)
Stage-rounds_left Stage.sent_to_check = inr (omega arith)
Stage-rounds_left Stage.month_changed = inl refl
Stage-rounds_left Stage.spinning = inl refl

module _ (env : RevivalEnv) where
  -- DATA_ENTRY_PENDING has no case in the switch.
  pub pending_spins :
      (fuel : ℕ) (c : Case)
      → c.state.current_status ≡ RevivalStatus.data_entry_pending
      → workflow_loop env fuel c ≡ out_of_fuel c
  unfolding workflow_loop round round_at
  pending_spins zero c p = refl
  pending_spins (suc fuel) c p = ground (arith, pending_spins fuel c p)

  -- With more fuel than rounds are left, the loop comes to an end, unless it has reached
  -- DATA_ENTRY_PENDING: there it spins.
  pub workflow_loop-out_of_fuel :
      (fuel : ℕ) (c : Case) {d : Case}
      → is_stage c.state.current_status ≡ true
      → rounds_left c.state.current_status (signals_left c) < fuel
      → workflow_loop env fuel c ≡ out_of_fuel d
      → d.state.current_status ≡ RevivalStatus.data_entry_pending
  unfolding workflow_loop
  workflow_loop-out_of_fuel zero c t b h = absurd (omega arith)
  workflow_loop-out_of_fuel (suc fuel) c {d} t b h =
      from (λ e. workflow_loop-out_of_fuel fuel e {d = d}) (round env c) refl
    where
      from :
          ((e : Case)
            → is_stage e.state.current_status ≡ true
            → rounds_left e.state.current_status (signals_left e) < fuel
            → workflow_loop env fuel e ≡ out_of_fuel d
            → d.state.current_status ≡ RevivalStatus.data_entry_pending)
          → (r : Round) → round env c ≡ r
          → d.state.current_status ≡ RevivalStatus.data_entry_pending
      from again (Round.next e) r =
          let step = round-Stage env c {d = e} t r in
          elim (Stage-rounds_left step) [
            | inl pending ↦ ground (arith, pending_spins fuel e pending)
            | inr fewer ↦ again e (Stage-is_stage step) (omega arith) (ground arith)
          ]
      from again (Round.blocked e) r = absurd (ground arith)
      from again (Round.closed e) r = absurd (ground arith)
      from again (Round.passed e) r = absurd (ground arith)
