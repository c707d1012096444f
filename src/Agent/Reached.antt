-- ===== src/Agent/Reached.antt =====
-- agent/agent.go, agent/prepared_execution.go, agent/run_identity.go: the calls on an engine in any order.
use spice_agent.Base.{
  ℕ, ◌≤◌, ◌≡◌, refl, subst, Bool, true, if◌then◌else◌, none, some, length, arith, Bytes, find_key,
  sum_over,
}
use spice_agent.Agent.Ledger.{
  PreparedExecutionKind, RunIdentityLimits, new_run_identity_ledger, run_identity_state_invalid,
  valid_identity_limits,
}
use spice_agent.Agent.Counting.{maximum_int}
use spice_agent.Agent.Engine.{
  Engine, abort_registered_run_identity, abort_run_identity_reservation, activate_run_identity,
  commit_engine, complete_run_identity, engine_closed, is_empty, new_engine, retire_run_identity,
}
use spice_agent.Agent.Lifecycle.{
  Admission, HandlePhase, abort_paused, abort_prepared, aborting, activate, commit_paused, finalize,
  finished, first_admission, gone, paused, prepare, ready, retire, retired, running, stop_engine,
  unissued,
}
use spice_agent.Agent.Admission.{IsAdmitted, active_as}
use spice_agent.Agent.Preparing.{prepare-IsAdmitted}
use spice_agent.Agent.Steps.{
  abort_paused-IsAdmitted, abort_prepared-IsAdmitted, activate-IsAdmitted, commit_paused-IsAdmitted,
  finalize-IsAdmitted, retire-IsAdmitted, stop_engine-IsAdmitted,
}

-- One call, by the caller of the engine, by the holder of a handle or by the goroutine of a run.
pub data AdmissionCall : Admission → Admission → Type 0 where
  prepares :
      (s : Admission) (run : Bytes) (kind : PreparedExecutionKind)
      → length run ≤ maximum_int
      → AdmissionCall s (prepare s run kind)
  commits :
      (s : Admission) (t : ℕ) (ended immediate : Bool)
      → AdmissionCall s (commit_paused s t ended immediate)
  aborts : (s : Admission) (t : ℕ) → AdmissionCall s (abort_prepared s t)
  activates : (s : Admission) (t : ℕ) → AdmissionCall s (activate s t)
  gives_up : (s : Admission) (t : ℕ) → AdmissionCall s (abort_paused s t)
  finalizes : (s s' : Admission) (t : ℕ) → finalize s t ≡ some s' → AdmissionCall s s'
  retires : (s : Admission) (t : ℕ) → AdmissionCall s (retire s t)
  stops : (s : Admission) → AdmissionCall s (stop_engine s)

AdmissionCall-IsAdmitted : (s s' : Admission) → AdmissionCall s s' → IsAdmitted s → IsAdmitted s'
AdmissionCall-IsAdmitted s _ (prepares _ run kind short) v = prepare-IsAdmitted s run kind short v
AdmissionCall-IsAdmitted s _ (commits _ t ended immediate) v =
    commit_paused-IsAdmitted s t ended immediate v
AdmissionCall-IsAdmitted s _ (aborts _ t) v = abort_prepared-IsAdmitted s t v
AdmissionCall-IsAdmitted s _ (activates _ t) v = activate-IsAdmitted s t v
AdmissionCall-IsAdmitted s _ (gives_up _ t) v = abort_paused-IsAdmitted s t v
AdmissionCall-IsAdmitted s s' (finalizes _ _ t run) v =
    let (s'', run', sound) = finalize-IsAdmitted s t v in
    let same : s'' ≡ s' = cc in subst IsAdmitted same sound
AdmissionCall-IsAdmitted s _ (retires _ t) v = retire-IsAdmitted s t v
AdmissionCall-IsAdmitted s _ (stops _) v = stop_engine-IsAdmitted s v

-- The admissions that a new engine with valid limits comes to.
pub data ReachedFrom : RunIdentityLimits → Admission → Type 0 where
  starts : (limits : RunIdentityLimits) → ReachedFrom limits (first_admission limits)
  calls :
      (limits : RunIdentityLimits) (s s' : Admission)
      → ReachedFrom limits s
      → AdmissionCall s s'
      → ReachedFrom limits s'

first-IsAdmitted :
    (limits : RunIdentityLimits)
    → valid_identity_limits limits ≡ true
    → IsAdmitted (first_admission limits)
unfolding first_admission new_engine new_run_identity_ledger is_empty active_as sum_over find_key
first-IsAdmitted limits h = record {
  counted = record {
    limited = h;
    keyed = tt;
    reserved_exact = refl;
    active_exact = refl;
    tombstones_exact = refl;
    bytes_exact = refl;
    entries_within = omega arith;
    bytes_within = omega arith;
    tokens = record {
      issued = λ k r f. absurd (grind arith);
      one_run = λ j k r r' f f'. absurd (grind arith);
    };
    token_space = omega arith;
  };
  keyed_active = tt;
  agrees = λ t. tt;
  listed = λ t u h'. absurd (grind arith);
  known = λ k t f. absurd (grind arith);
  later = λ t late. refl;
  drained_exact = refl;
}

-- In every state that the calls on a new engine with valid limits lead to, the statistics of the ledger
-- are exact and within the limits, no two records have one token, each handle finds what it left in the
-- engine, the active runs are those of the registered handles, and `drained` is closed exactly when
-- there is none.
pub reached-IsAdmitted :
    (limits : RunIdentityLimits) (s : Admission)
    → valid_identity_limits limits ≡ true
    → ReachedFrom limits s
    → IsAdmitted s
reached-IsAdmitted limits _ h (starts _) = first-IsAdmitted limits h
reached-IsAdmitted limits _ h (calls _ s s' reached call) =
    AdmissionCall-IsAdmitted s s' call (reached-IsAdmitted limits s h reached)

-- What the calls of a handle on the engine answer, by its state.
abbrev pub CallsSucceed : Engine → Bytes → ℕ → Bool → HandlePhase → Type 0
CallsSucceed e run t immediate unissued = Unit
CallsSucceed e run t immediate ready =
    ((abort_run_identity_reservation e run t).1 ≡ none)
    × ((commit_engine e run t immediate).1 ≡ (if e.closed then some engine_closed else none))
CallsSucceed e run t immediate paused =
    ((activate_run_identity e run t).1 ≡ none)
    × (retire_run_identity e run t ≡ (e, some run_identity_state_invalid))
CallsSucceed e run t immediate running =
    ((e' : Engine) × (complete_run_identity e run t ≡ some (e', none)))
    × (retire_run_identity e run t ≡ (e, some run_identity_state_invalid))
CallsSucceed e run t immediate aborting =
    ((e' : Engine) × (abort_registered_run_identity e run t ≡ some (e', none)))
    × (retire_run_identity e run t ≡ (e, some run_identity_state_invalid))
CallsSucceed e run t immediate finished = (retire_run_identity e run t).1 ≡ none
CallsSucceed e run t immediate retired =
    retire_run_identity e run t ≡ (e, some run_identity_state_invalid)
CallsSucceed e run t immediate gone =
    retire_run_identity e run t ≡ (e, some run_identity_state_invalid)
