-- ===== src/Revival/Loop/Induction.antt =====
-- How a property of WorkflowLoop follows from one of its rounds.
use mathlib.Core.Path.{subst}
use revival_integration.Base.{ℕ, zero, suc, ◌≡◌, refl, arith}
use revival_integration.Revival.Case.{RevivalEnv, Case, Round, next, blocked, closed, passed}
use revival_integration.Revival.Loop.{
  LoopOutcome, still_waiting, ended, goes_to_collection, out_of_fuel, round, workflow_loop,
}

-- P holds between the rounds, and Q of the outcome.
pub record LoopInvariant (env : RevivalEnv) (P : Case → Type 0) (Q : LoopOutcome → Type 0)
    : Type 0 where
  pub on_next : (c d : Case) → P c → round env c ≡ next d → P d
  pub on_blocked : (c d : Case) → P c → round env c ≡ blocked d → Q (still_waiting d)
  pub on_closed : (c d : Case) → P c → round env c ≡ closed d → Q (ended d)
  pub on_passed : (c d : Case) → P c → round env c ≡ passed d → Q (goes_to_collection d)
  pub on_fuel : (c : Case) → P c → Q (out_of_fuel c)

module _ (env : RevivalEnv) {P : Case → Type 0} {Q : LoopOutcome → Type 0}
    (laws : LoopInvariant env P Q) where
  abbrev loop_after : ℕ → Round → LoopOutcome
  loop_after fuel (Round.next d) = workflow_loop env fuel d
  loop_after fuel (Round.blocked d) = still_waiting d
  loop_after fuel (Round.closed d) = ended d
  loop_after fuel (Round.passed d) = goes_to_collection d

  holds_after :
      (fuel : ℕ) (c : Case)
      → ((e : Case) → P e → Q (workflow_loop env fuel e))
      → P c
      → (r : Round) → round env c ≡ r
      → Q (loop_after fuel r)
  holds_after fuel c again p (Round.next d) e = again d (laws.on_next c d p e)
  holds_after fuel c again p (Round.blocked d) e = laws.on_blocked c d p e
  holds_after fuel c again p (Round.closed d) e = laws.on_closed c d p e
  holds_after fuel c again p (Round.passed d) e = laws.on_passed c d p e

  step_is :
      (fuel : ℕ) (r : Round) (c : Case)
      → round env c ≡ r
      → loop_after fuel r ≡ workflow_loop env (suc fuel) c
  unfolding workflow_loop
  step_is fuel r c e = ground arith

  -- What every round keeps holds when the loop ends.
  pub workflow_loop_ind : (fuel : ℕ) (c : Case) → P c → Q (workflow_loop env fuel c)
  unfolding workflow_loop
  workflow_loop_ind zero c p = laws.on_fuel c p
  workflow_loop_ind (suc fuel) c p =
      subst Q (step_is fuel (round env c) c refl)
        (holds_after fuel c (workflow_loop_ind fuel) p (round env c) refl)

module _ (env : RevivalEnv) {P R : Case → Type 0}
    (kept : (c d : Case) → P c → round env c ≡ next d → P d) where
  pub while_waiting :
      ((c d : Case) → P c → round env c ≡ blocked d → R d)
      → (fuel : ℕ) (c : Case) {d : Case} → P c
      → workflow_loop env fuel c ≡ still_waiting d
      → R d
  while_waiting stop fuel c {d} p h =
      workflow_loop_ind env {P = P} {Q = λ o. o ≡ still_waiting d → R d}
        (record {
          on_next = kept;
          on_blocked = λ e f q r s. subst R (ground arith) (stop e f q r);
          on_closed = λ _ _ _ _ s. absurd (ground arith);
          on_passed = λ _ _ _ _ s. absurd (ground arith);
          on_fuel = λ _ _ s. absurd (ground arith);
        })
        fuel c p h

  pub at_collection :
      ((c d : Case) → P c → round env c ≡ passed d → R d)
      → (fuel : ℕ) (c : Case) {d : Case} → P c
      → workflow_loop env fuel c ≡ goes_to_collection d
      → R d
  at_collection stop fuel c {d} p h =
      workflow_loop_ind env {P = P} {Q = λ o. o ≡ goes_to_collection d → R d}
        (record {
          on_next = kept;
          on_blocked = λ _ _ _ _ s. absurd (ground arith);
          on_closed = λ _ _ _ _ s. absurd (ground arith);
          on_passed = λ e f q r s. subst R (ground arith) (stop e f q r);
          on_fuel = λ _ _ s. absurd (ground arith);
        })
        fuel c p h
