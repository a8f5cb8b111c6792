-- ===== src/PolicyIssue/Handover/Repeated.antt =====
-- The message of StartPMLifecycleActivity, sent again.
use revival_integration.Base.{◌≡◌, refl, false, some, ℤ, length, suc}
use revival_integration.Lifecycle.Signal.{Signal}
use revival_integration.Lifecycle.World.{Env, World}
use revival_integration.Lifecycle.Created.Remembered.{handle_policy_created-seen}
use revival_integration.Lifecycle.Step.{handle_signal}
use revival_integration.Lifecycle.Step.Duplicates.{duplicate_ignored}
use revival_integration.PolicyIssue.Handover.{PmCreatedSignal, created_signal}

-- Where InitializePolicyActivity stores the policy and the search attributes are set, a message of
-- StartPMLifecycleActivity that comes next after such a message changes nothing, whatever it says:
-- none carries a request identifier, so it counts as a duplicate.
pub second_report_ignored :
    (env : Env) (m again : PmCreatedSignal) (w : World) {id : ℤ}
    → env.initialized (length w.trace) ≡ some id
    → env.upsert_fails (suc (length w.trace)) ≡ false
    → let w' = (handle_signal env (Signal.policy_created (created_signal m)) w).0 in
      handle_signal env (Signal.policy_created (created_signal again)) w' ≡ (w', false)
unfolding handle_signal created_signal
second_report_ignored env m again w stored set =
    duplicate_ignored env (Signal.policy_created (created_signal again)) _ refl
      (handle_policy_created-seen env (created_signal m) w stored set)
