-- ===== src/Restart/Examples.antt =====
-- plugin/host/restart.go for the default policy.
use spice_agent.Base.{◌+◌, ◌≡◌, refl, ok}
use spice_agent.Restart.Policy.{
  default_restart_policy, disabled, validate, min, backoff, backoff_loop, twice,
}
use spice_agent.Restart.Backoff.{doubled, backoff_lem}

default_valid : validate default_restart_policy ≡ ok default_restart_policy
unfolding validate disabled
default_valid = refl

backoff_lem_example :
    (backoff default_restart_policy 1 ≡ 0)
    × (backoff default_restart_policy (3 + 2) ≡ min (doubled 3 250000000) 1000000000)
backoff_lem_example = backoff_lem default_restart_policy default_restart_policy 3 default_valid

-- The third attempt waits half a second.
third_attempt : backoff default_restart_policy 3 ≡ 500000000
unfolding backoff backoff_loop twice
third_attempt = refl
