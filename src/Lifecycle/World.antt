-- ===== src/Lifecycle/World.antt =====
-- What the handlers act on: the workflow's state, the commands that it has issued (the newest
-- first), and its timers. workflow.Context becomes `Env`, the answers of the Temporal service and
-- of the activities; each is a function of how many commands were issued before it was asked for,
-- so a clock may move on and a database may change between any two of them.
use revival_integration.Base.{ℕ, Bool, Option, List, ◌∷◌, String, ℤ, Dict, contains, insert, length}
use revival_integration.Domain.Status.{Status}
use revival_integration.Stdlib.Duration.{Time}
use revival_integration.Lifecycle.State.{PolicyLifecycleState}
use revival_integration.Lifecycle.Signal.{Payload}
use revival_integration.Lifecycle.Command.{
  Command, SignalStatus, PolicyRefreshedState, MetadataValue,
}

pub record Env : Type 0 where
  -- workflow.Now
  pub clock : ℕ → Time
  -- workflow.GetInfo
  pub workflow_id : String
  pub history_length : ℕ → ℕ
  pub history_size : ℕ → ℕ
  -- `none` is an error; for the refreshed state, also a nil result.
  pub initialized : ℕ → Option ℤ
  pub refreshed : ℕ → Option PolicyRefreshedState
  -- A failed fetch leaves Go's zero value.
  pub all_configs : ℕ → Dict String
  pub config : ℕ → String
  -- UpsertTypedSearchAttributes returns an error.
  pub upsert_fails : ℕ → Bool

-- A goroutine that waits for the end of the free-look period.
pub record FlcTimer : Type 0 where
  pub due : Time
  pub reason : String

pub record World : Type 0 where
  pub state : PolicyLifecycleState
  pub trace : List Command
  pub timers : List FlcTimer

abbrev pub now : Env → World → Time
now env w = env.clock (length w.trace)

abbrev pub emit : Command → World → World
emit c w = record w { trace = c ∷ w.trace }

abbrev pub put : PolicyLifecycleState → World → World
put s w = record w { state = s }

-- `_, seen := state.ProcessedSignalIDs[key]`
abbrev pub seen : String → World → Bool
seen key w = contains key w.state.processed_signal_ids

-- `state.ProcessedSignalIDs[key] = workflow.Now(ctx)`
abbrev pub mark_processed : Env → String → World → World
mark_processed env key w =
    put
      (record w.state {
        processed_signal_ids = insert key (now env w) w.state.processed_signal_ids;
      })
      w

-- The audit of a signal: LogSignalReceivedActivity with the state before it is handled.
abbrev pub log_signal : String → Payload → String → SignalStatus → Status → World → World
log_signal channel payload key status before w =
    emit
      (Command.log_signal_received (record {
        policy_id = w.state.policy_db_id;
        signal_channel = channel;
        signal_payload = payload;
        request_id = key;
        status = status;
        state_before = before;
      }))
      w

-- The same, for the handlers that log every signal as processed before they act.
abbrev pub audit : String → Payload → String → World → World
audit channel payload key w =
    log_signal channel payload key SignalStatus.processed w.state.current_status w

-- UpdatePolicyMetadataActivity.
abbrev pub update_metadata : List (String × MetadataValue) → World → World
update_metadata updates w =
    emit
      (Command.update_policy_metadata
        (record { policy_id = w.state.policy_db_id; updates = updates }))
      w
