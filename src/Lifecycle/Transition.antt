-- ===== src/Lifecycle/Transition.antt =====
-- policy_lifecycle_workflow.go: doTransition and computeDisplayStatus.
use text.Mathlib.Text.{◌==◌ as str_eq}
use revival_integration.Base.{ℕ, ◌+◌, ◌%◌, ◌^◌, not, ◌&&◌, String, ◌<>◌, if◌then◌else◌}
use revival_integration.Domain.Status.{Status, status_text}
use revival_integration.Lifecycle.State.{EncumbranceFlags}
use revival_integration.Lifecycle.Command.{Command}
use revival_integration.Lifecycle.World.{Env, World, now, emit, put}

-- `n++` on an `int64`.
abbrev pub next_int64 : ℕ → ℕ
next_int64 n = (n + 1) % 2 ^ 64

unfoldable pub compute_display_status : Status → EncumbranceFlags → String
compute_display_status status enc =
    let s0 = status_text status in
    let s1 = if enc.has_active_loan then s0 <> "_LOAN" else s0 in
    let s2 =
      if not (str_eq enc.assignment_type "") && not (str_eq enc.assignment_type "NONE")
      then s1 <> ("_" <> enc.assignment_type)
      else s1 in
    let s3 = if enc.aml_hold then s2 <> "_AML_HOLD" else s2 in
    if enc.dispute_flag then s3 <> "_DISPUTED" else s3

unfoldable pub do_transition : Env → Status → Status → String → String → String → World → World
do_transition env from to reason triggered_by request_id w =
    let s = record w.state {
      previous_status = from;
      current_status = to;
      display_status = compute_display_status to w.state.encumbrances;
      version = next_int64 w.state.version;
      last_transition_at = now env w;
    } in
    emit (Command.upsert_status to) (
      emit
        (Command.record_state_transition (record {
          policy_id = s.policy_db_id;
          policy_number = s.policy_number;
          from_status = from;
          to_status = to;
          reason = reason;
          triggered_by = triggered_by;
          request_id = request_id;
          version = s.version;
        }))
        (put s w))
