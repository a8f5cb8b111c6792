-- ===== src/Lifecycle/Run/Duplicates.antt =====
-- policy_lifecycle_workflow.go: the memory of signals under pruneProcessedSignals.
use revival_integration.Base.{
  ◌+◌, ◌-◌, ◌*◌, ◌≤◌, ◌≡◌, true, false, not, some, [], ◌∷◌, String, Dict, lookup, contains, keep,
  ltb, arith,
}
use revival_integration.Stdlib.Duration.{Time, day}
use revival_integration.Lifecycle.Signal.{Signal}
use revival_integration.Lifecycle.World.{Env, World, now, seen}
use revival_integration.Lifecycle.Created.{prune_processed_signals}
use revival_integration.Lifecycle.Step.{handle_signal}
use revival_integration.Lifecycle.Step.Keys.{signal_key}
use revival_integration.Lifecycle.Step.Duplicates.{duplicate_ignored}
use revival_integration.Lifecycle.Run.{after_signal}

lookup-keep :
    (key : String) (cutoff t : Time) (m : Dict Time)
    → lookup key m ≡ some t
    → ltb t cutoff ≡ false
    → lookup key (keep (λ e. not (ltb e.1 cutoff)) m) ≡ some t
unfolding lookup
lookup-keep key cutoff t [] h l = h
lookup-keep key cutoff t ((k, u) ∷ m) h l = ground (arith, lookup-keep key cutoff t m)

after_signal-lookup :
    (env : Env) (w : World) (key : String) (t : Time)
    → lookup key w.state.processed_signal_ids ≡ some t
    → now env w ≤ t + 90 * day
    → lookup key (after_signal env w).state.processed_signal_ids ≡ some t
unfolding after_signal prune_processed_signals
after_signal-lookup env w key t h l =
    lookup-keep key (now env w - 90 * day) t w.state.processed_signal_ids h (ground arith)

lookup-seen :
    (key : String) (w : World) (t : Time)
    → lookup key w.state.processed_signal_ids ≡ some t
    → seen key w ≡ true
unfolding contains
lookup-seen key w t h = ground arith

-- A signal that was handled at most 90 days ago is still ignored after the pruning that ends the
-- round of another signal.
pub recent_duplicate_ignored :
    (env : Env) (s : Signal) (w : World) (key : String) (t : Time)
    → signal_key s ≡ some key
    → lookup key w.state.processed_signal_ids ≡ some t
    → now env w ≤ t + 90 * day
    → handle_signal env s (after_signal env w) ≡ (after_signal env w, false)
recent_duplicate_ignored env s w key t k h l =
    duplicate_ignored env s (after_signal env w) k
      (lookup-seen key (after_signal env w) t (after_signal-lookup env w key t h l))
