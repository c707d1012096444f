-- ===== src/Stage/Examples.antt =====
-- stage/plan.go on one lease and on one dispatcher with two decorators.
use spice_agent.Base.{
  ◌≡◌, refl, ◌≤◌, Bool, true, false, List, [], ◌∷◌, Option, some, bytes_eq, bytes_ltb, ok, canceled,
}
use spice_agent.Stage.Release.{
  ReleaseEvent, calls, returns, expires, fails, release_steps, new_lease, first_end,
  release_steps-first_end, release_steps-once,
}
use spice_agent.Stage.Decorators.{
  Definition, Dispatcher, foreign, frozen, definitions_of, Wrapped, wrapped, snapshot_definitions,
  snapshot_answer, checked, validate_after, sort_definitions, insert_definition, same_definitions,
  accept_definitions, accept_wrapped, decorate, decorate_all, decorate_base, apply_decorators,
  IsNested,
}
use spice_agent.Stage.Nesting.{apply_decorators-IsNested}

-- Two calls, of which the first one's context ends before the release function fails.
abbrev events : List ReleaseEvent
events = calls ∷ calls ∷ expires canceled ∷ returns (fails (101 ∷ [])) ∷ []

release_steps-first_end_example : (release_steps events new_lease).result ≡ first_end false events
release_steps-first_end_example = release_steps-first_end events

release_steps-once_example : (release_steps events new_lease).invocations ≤ 1
release_steps-once_example = release_steps-once events

abbrev accepts_all : Definition → Bool
accepts_all d = true

-- A foreign dispatcher that is its definitions.
abbrev declared : List Definition → Option (List Definition)
declared ds = some ds

abbrev read : Definition
read = record { name = 114 ∷ []; fingerprint = 1 ∷ [] }

abbrev write : Definition
write = record { name = 119 ∷ []; fingerprint = 2 ∷ [] }

abbrev base : Dispatcher (List Definition)
base = foreign (write ∷ read ∷ [])

abbrev passing : Option (Dispatcher (List Definition) → Wrapped (List Definition))
passing = some (λ d. wrapped d)

abbrev replacing : Option (Dispatcher (List Definition) → Wrapped (List Definition))
replacing = some (λ d. wrapped (foreign (read ∷ write ∷ [])))

abbrev decorated : Dispatcher (List Definition)
decorated = frozen (frozen (foreign (read ∷ write ∷ [])) (read ∷ write ∷ [])) (read ∷ write ∷ [])

decorated_made :
    apply_decorators declared accepts_all (some base) (passing ∷ replacing ∷ []) ≡ ok decorated
unfolding apply_decorators decorate_base decorate_all decorate accept_wrapped accept_definitions
    same_definitions snapshot_definitions snapshot_answer definitions_of checked validate_after
    sort_definitions insert_definition bytes_eq bytes_ltb
decorated_made = refl

apply_decorators-IsNested_example :
    (ds : List Definition) × (snapshot_definitions declared accepts_all base ≡ ok ds)
    × IsNested declared accepts_all ds base (passing ∷ replacing ∷ []) decorated
    × (definitions_of declared decorated ≡ some ds)
apply_decorators-IsNested_example =
    apply_decorators-IsNested declared accepts_all base decorated (passing ∷ replacing ∷ [])
      decorated_made
