-- ===== src/Restart/Policy.antt =====
-- plugin/host/restart.go: the policy, its tests and the backoff. Durations are nanoseconds; the
-- constructor refuses a negative one together with 0.
use spice_agent.Base.{
  ℕ, zero, suc, ◌-◌, ◌*◌, ◌/◌, ◌%◌, ◌^◌, Bool, true, false, ◌&&◌, ◌||◌, if◌then◌else◌, ltb, leb,
  ◌==◌, Result, ok, err,
}

pub record RestartPolicy : Type 0 where
  pub maximum_attempts : ℕ
  pub initial_backoff : ℕ
  pub maximum_backoff : ℕ
  pub attempt_timeout : ℕ

pub data PolicyError : Type 0 where
  attempts_range initial_range maximum_range timeout_range : PolicyError

-- MaximumRestartAttempts
abbrev pub maximum_restart_attempts : ℕ
maximum_restart_attempts = 8

-- MaximumOperationTimeout
abbrev pub maximum_operation_timeout : ℕ
maximum_operation_timeout = 86400000000000

-- The test of Validate for the policy that is all zero.
unfoldable pub disabled : RestartPolicy → Bool
disabled p =
    p.maximum_attempts == 0
    && p.initial_backoff == 0
    && p.maximum_backoff == 0
    && p.attempt_timeout == 0

-- Validate
unfoldable pub validate : RestartPolicy → Result PolicyError RestartPolicy
unfolding disabled
validate p =
    if disabled p
    then ok p
    else if p.maximum_attempts == 0 || ltb maximum_restart_attempts p.maximum_attempts
    then err attempts_range
    else if leb p.initial_backoff 0 || ltb maximum_operation_timeout p.initial_backoff
    then err initial_range
    else if ltb p.maximum_backoff p.initial_backoff
        || ltb maximum_operation_timeout p.maximum_backoff
    then err maximum_range
    else if leb p.attempt_timeout 0 || ltb maximum_operation_timeout p.attempt_timeout
    then err timeout_range
    else ok p

-- NewRestartPolicy
unfoldable pub new_restart_policy : ℕ → ℕ → ℕ → ℕ → Result PolicyError RestartPolicy
unfolding validate
new_restart_policy attempts initial maximum timeout = validate (record {
  maximum_attempts = attempts;
  initial_backoff = initial;
  maximum_backoff = maximum;
  attempt_timeout = timeout;
})

-- DefaultRestartPolicy
abbrev pub default_restart_policy : RestartPolicy
default_restart_policy = record {
  maximum_attempts = 3;
  initial_backoff = 250000000;
  maximum_backoff = 1000000000;
  attempt_timeout = 30000000000;
}

-- Enabled
unfoldable pub enabled : RestartPolicy → Bool
enabled p = if p.maximum_attempts == 0 then false else true

-- A product of durations, for values that are not negative: it wraps at 64 bits.
unfoldable pub twice : ℕ → ℕ
twice value = value * 2 % 2 ^ 64

-- The loop of backoff, with the rounds that are left.
unfoldable pub backoff_loop : ℕ → ℕ → ℕ → ℕ
unfolding twice
backoff_loop zero value maximum = value
backoff_loop (suc rounds) value maximum =
    let more = backoff_loop rounds (twice value) maximum in
    if ltb value maximum then (if ltb (maximum / 2) value then maximum else more) else value

abbrev pub min : ℕ → ℕ → ℕ
min a b = if ltb b a then b else a

-- backoff
unfoldable pub backoff : RestartPolicy → ℕ → ℕ
unfolding backoff_loop
backoff p attempt =
    if leb attempt 1
    then 0
    else min (backoff_loop (attempt - 2) p.initial_backoff p.maximum_backoff) p.maximum_backoff
