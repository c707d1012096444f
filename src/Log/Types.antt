-- ===== src/Log/Types.antt =====
-- event/log.go: limits, failures, entries and statistics. The limits are Go ints; a negative one is
-- refused by the constructor together with 0, so they are natural numbers here.
use spice_agent.Base.{ℕ, ContextError}
use spice_agent.Event.Envelope.{Envelope}

pub record LogLimits : Type 0 where
  pub max_events : ℕ
  pub max_bytes : ℕ
  pub terminal_reserve_events : ℕ
  pub terminal_reserve_bytes : ℕ
  pub subscriber_max_events : ℕ
  pub subscriber_max_bytes : ℕ

-- DefaultLogLimits
abbrev pub default_log_limits : LogLimits
default_log_limits = record {
  max_events = 8192;
  max_bytes = 33554432;
  terminal_reserve_events = 4;
  terminal_reserve_bytes = 16384;
  subscriber_max_events = 1024;
  subscriber_max_bytes = 4194304;
}

-- OutOfRangeError
pub record OutOfRange : Type 0 where
  pub requested_after : ℕ
  pub earliest : ℕ
  pub latest : ℕ
  pub recovery_after : ℕ

-- The names of the exhausted resources.
pub data Resource : Type 0 where
  event_log_bytes event_replay_bytes event_replay_events : Resource
  event_subscription_events event_subscription_bytes : Resource

-- ResourceExhaustedError
pub record Exhausted : Type 0 where
  pub last_delivered : ℕ
  pub max_events : ℕ
  pub max_bytes : ℕ
  pub resource : Resource
  pub limit : ℕ
  pub observed : ℕ

pub data LogError : Type 0 where
  run_id_required limits_invalid cursor_unrepresentable : LogError
  log_closed run_mismatch sequence_mismatch : LogError
  max_events_range max_bytes_range no_progress no_recovery_entry : LogError
  out_of_range : OutOfRange → LogError
  exhausted : Exhausted → LogError
  context_done : ContextError → LogError

-- newResourceExhausted
abbrev pub new_resource_exhausted : ℕ → ℕ → ℕ → Resource → ℕ → ℕ → LogError
new_resource_exhausted last_delivered max_events max_bytes resource limit observed =
    exhausted (record {
      last_delivered = last_delivered;
      max_events = max_events;
      max_bytes = max_bytes;
      resource = resource;
      limit = limit;
      observed = observed;
    })

-- logEntry
pub record LogEntry : Type 0 where
  pub envelope : Envelope
  pub bytes : ℕ

-- LogStats without the two fields that Stats computes.
pub record LogStats : Type 0 where
  pub evicted_events : ℕ
  pub evicted_bytes : ℕ
  pub authoritative_exhaustions : ℕ
  pub subscription_exhaustions : ℕ
  pub slow_subscriber_disconnects : ℕ
