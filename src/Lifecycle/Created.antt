-- ===== src/Lifecycle/Created.antt =====
-- policy_lifecycle_workflow.go: handlePolicyCreated, pruneProcessedSignals and the timer of the
-- free-look period.
pub mod Remembered
use revival_integration.Base.{
  ◌-◌, ◌*◌, not, none, some, List, [], ◌∷◌, ◌++◌, String, ℤ, Dict, contains, insert, ltb,
  if◌then◌else◌, length, keep,
}
use revival_integration.Stdlib.Decimal.{atoi}
use revival_integration.Stdlib.Duration.{day, add_time}
use revival_integration.Domain.Status.{Status, status_eq}
use revival_integration.Domain.ConfigKey
use revival_integration.Lifecycle.Signal.{PolicyCreatedSignal}
use revival_integration.Lifecycle.Command.{Command}
use revival_integration.Lifecycle.World.{Env, World, FlcTimer, now, emit, put, seen, mark_processed}
use revival_integration.Lifecycle.Transition.{do_transition}
use revival_integration.Lifecycle.Timeouts.{get_flc_period}

all_config_keys : List String
all_config_keys =
    ConfigKey.routing_timeout_surrender ∷ ConfigKey.routing_timeout_forced_surrender
    ∷ ConfigKey.routing_timeout_loan ∷ ConfigKey.routing_timeout_loan_repayment
    ∷ ConfigKey.routing_timeout_revival ∷ ConfigKey.routing_timeout_death_claim
    ∷ ConfigKey.routing_timeout_maturity_claim ∷ ConfigKey.routing_timeout_survival_benefit
    ∷ ConfigKey.routing_timeout_commutation ∷ ConfigKey.routing_timeout_conversion
    ∷ ConfigKey.routing_timeout_flc ∷ ConfigKey.routing_timeout_premium_refund
    ∷ ConfigKey.routing_timeout_nfr ∷ ConfigKey.cooling_period_void
    ∷ ConfigKey.cooling_period_surrendered ∷ ConfigKey.cooling_period_terminated_surrender
    ∷ ConfigKey.cooling_period_matured ∷ ConfigKey.cooling_period_death_claim_settled
    ∷ ConfigKey.cooling_period_flc_cancelled ∷ ConfigKey.cooling_period_cancelled_death
    ∷ ConfigKey.cooling_period_converted ∷ []

-- `for k, v := range batchedCfg { state.CachedConfig[k] = v }`
merge : Dict String → Dict String → Dict String
merge [] cache = cache
merge ((k, v) ∷ fetched) cache = merge fetched (insert k v cache)

-- The keys that are not cached yet are fetched in one call, if there are any.
load_configs : Env → World → World
unfolding merge all_config_keys
load_configs env w = elim (keep (λ k. not (contains k w.state.cached_config)) all_config_keys) [
  | [] ↦ w
  | k ∷ ks ↦ emit (Command.fetch_all_workflow_configs (k ∷ ks)) (
      put
        (record w.state {
          cached_config = merge (env.all_configs (length w.trace)) w.state.cached_config;
        })
        w)
]

-- The end of the free-look period is kept in the state, and a goroutine waits for it.
start_flc_timer : Env → PolicyCreatedSignal → World → World
start_flc_timer env sig w =
    let key =
      if sig.metadata.is_distance_marketing
      then ConfigKey.flc_period_distance_marketing_days
      else ConfigKey.flc_period_days in
    let period = get_flc_period (atoi (env.config (length w.trace))) in
    let fetched = emit (Command.fetch_workflow_config key) w in
    let due = add_time (now env fetched) period in
    let timer : FlcTimer = record {
      due = due;
      reason = "FLC period expired without cancellation";
    } in
    record fetched {
      state = record fetched.state { flc_expiry_at = due };
      timers = fetched.timers ++ (timer ∷ []);
    }

-- From STEP 5 on, once the search attributes are set.
announce : Env → PolicyCreatedSignal → ℤ → World → World
announce env sig id w = mark_processed env sig.request_id (
    emit
      (Command.publish_event (record {
        policy_id = id;
        policy_number = sig.policy_number;
        event_type = "POLICY_CREATED";
        occurred_at = now env w;
      }))
      w)

-- STEP 3 and STEP 4.
adopt : Env → PolicyCreatedSignal → ℤ → World → World
adopt env sig id w =
    let s = record w.state {
      policy_db_id = id;
      policy_id = sig.policy_id;
      policy_number = sig.policy_number;
      metadata = record (sig.metadata) { workflow_id = env.workflow_id };
    } in
    emit
      (Command.upsert_policy s.policy_number s.current_status s.metadata.product_type
        s.metadata.billing_method s.metadata.issue_date)
      (put s w)

unfoldable pub handle_policy_created : Env → PolicyCreatedSignal → World → World
unfolding load_configs start_flc_timer announce adopt
handle_policy_created env sig w =
    let asked =
      emit
        (Command.initialize_policy (record {
          request_id = sig.request_id;
          policy_issue_id = sig.policy_id;
          policy_number = sig.policy_number;
          workflow_id = env.workflow_id;
          customer_id = sig.metadata.customer_id;
          product_code = sig.metadata.product_code;
          product_type = sig.metadata.product_type;
          sum_assured = sig.metadata.sum_assured;
          current_premium = sig.metadata.current_premium;
          premium_mode = sig.metadata.premium_mode;
          billing_method = sig.metadata.billing_method;
          issue_date = sig.metadata.issue_date;
          maturity_date = sig.metadata.maturity_date;
          paid_to_date = sig.metadata.paid_to_date;
          agent_id = sig.metadata.agent_id;
        }))
        w in
    if seen sig.request_id w then w else elim (env.initialized (length w.trace)) [
      | none ↦ asked
      | some id ↦
          let adopted = adopt env sig id asked in
          if env.upsert_fails (length asked.trace)
          then adopted
          else start_flc_timer env sig (load_configs env (announce env sig id adopted))
    ]

-- The goroutine wakes up: a policy still in its free-look period becomes active.
unfoldable pub fire_flc_timer : Env → FlcTimer → World → World
fire_flc_timer env timer w =
    let moved =
      if status_eq w.state.current_status Status.free_look_active
      then do_transition env Status.free_look_active Status.active timer.reason "flc-timer" "" w
      else w in
    put (record moved.state { flc_expiry_at = 0 }) moved

-- `pruneProcessedSignals`: entries of more than 90 days ago are dropped.
unfoldable pub prune_processed_signals : Env → World → World
prune_processed_signals env w =
    let cutoff = now env w - 90 * day in
    put
      (record w.state {
        processed_signal_ids = keep (λ e. not (ltb e.1 cutoff)) w.state.processed_signal_ids;
      })
      w
