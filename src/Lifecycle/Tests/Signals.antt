-- ===== src/Lifecycle/Tests/Signals.antt =====
-- Tests of the theorems on every signal.
use revival_integration.Base.{◌≡◌, refl, true, false, pos, contains, lookup}
use revival_integration.Domain.Status.{is_terminal}
use revival_integration.Domain.Request.{RequestType}
use revival_integration.Lifecycle.Signal.{Signal}
use revival_integration.Lifecycle.Pending.Locks.{LockIsCovered}
use revival_integration.Lifecycle.Request.{dedup_key}
use revival_integration.Lifecycle.Administration.{handle_admin_void}
use revival_integration.Lifecycle.Step.{handle_signal}
use revival_integration.Lifecycle.Step.Terminal.{handle_signal-is_terminal}
use revival_integration.Lifecycle.Step.Duplicates.{duplicate_ignored}
use revival_integration.Lifecycle.Step.Locks.{handle_signal-LockIsCovered}
use revival_integration.Lifecycle.Step.DatabaseLock.{LocksAgree, handle_signal-LocksAgree}
use revival_integration.Lifecycle.Tests.{env, in_force, loan_waits, world_of, request, completion}

abbrev void_policy : Signal
void_policy =
    Signal.admin_void
      (record { request_id = "void-1"; reason = "issued in error"; authorized_by = pos 12 })

handle_signal-is_terminal_example :
    is_terminal (handle_signal env void_policy (world_of loan_waits)).0.state.current_status ≡ true
unfolding handle_signal handle_admin_void contains lookup
handle_signal-is_terminal_example =
    handle_signal-is_terminal env void_policy (world_of loan_waits) refl

duplicate_ignored_example :
    handle_signal env
      (Signal.surrender_request (request "old" RequestType.surrender))
      (world_of in_force)
    ≡ (world_of in_force, false)
unfolding dedup_key contains lookup
duplicate_ignored_example =
    duplicate_ignored env (Signal.surrender_request (request "old" RequestType.surrender))
      (world_of in_force) refl refl

handle_signal-LockIsCovered_example :
    LockIsCovered
      (handle_signal env
        (Signal.loan_completed (completion "loan-1" RequestType.loan))
        (world_of loan_waits)).0
handle_signal-LockIsCovered_example =
    handle_signal-LockIsCovered env (Signal.loan_completed (completion "loan-1" RequestType.loan))
      (world_of loan_waits) refl refl

handle_signal-LocksAgree_example :
    LocksAgree
      (handle_signal env
        (Signal.surrender_request (request "s-1" RequestType.surrender))
        (world_of in_force)).0
handle_signal-LocksAgree_example =
    handle_signal-LocksAgree env (Signal.surrender_request (request "s-1" RequestType.surrender))
      (world_of in_force) refl
