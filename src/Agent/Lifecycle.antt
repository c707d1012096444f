-- ===== src/Agent/Lifecycle.antt =====
-- agent/prepared_execution.go: the prepared executions and runs, and their calls on the engine. Each
-- function does what its Go namesake does while it holds the lock of the handle.
use spice_agent.Base.{
  ℕ, Bool, true, if◌then◌else◌, ◌==◌, [], Option, none, some, Result, ok, err, Bytes,
}
use spice_agent.Agent.Ledger.{IdentityError, PreparedExecutionKind, RunIdentityLimits}
use spice_agent.Agent.Engine.{
  Engine, EngineError, abort_registered_run_identity, abort_run_identity_reservation,
  activate_run_identity, commit_engine, complete_run_identity, new_engine, reserve_run_identity,
  retire_run_identity,
}

-- The states of a preparedExecution and then of its PreparedRun, up to the end of the run: `ready` is
-- preparedExecutionReady; `paused`, `running` and `aborting` are preparedRunReady, preparedRunActivated
-- and preparedRunAborted; `finished` and `gone` are after the once of `finalize`, and `retired` is a
-- finished run after Retire. An aborted execution is `gone` too.
pub data HandlePhase : Type 0 where
  unissued ready paused running aborting finished retired gone : HandlePhase

-- The engine and its handles, by their identity tokens.
pub record Admission : Type 0 where
  pub engine : Engine
  pub run_of : ℕ → Bytes
  pub phase : ℕ → HandlePhase

-- An engine without handles.
unfoldable pub first_admission : RunIdentityLimits → Admission
unfolding new_engine
first_admission limits = record {
  engine = new_engine limits;
  run_of = λ t. [];
  phase = λ t. unissued;
}

unfoldable pub put_at {ℓ} : {A : Type ℓ} → ℕ → A → (ℕ → A) → ℕ → A
put_at t a f u = if u == t then a else f u

unfoldable pub enter_phase : Admission → ℕ → HandlePhase → Engine → Admission
unfolding put_at
enter_phase s token phase engine = record s { engine = engine; phase = put_at token phase s.phase }

-- The reservation in PrepareStart and PrepareResumeSnapshot, and the handle that they make.
unfoldable pub prepared_with : Admission → Bytes → Engine × Result EngineError ℕ → Admission
unfolding put_at
prepared_with s run_id (engine, err failure) = record s { engine = engine }
prepared_with s run_id (engine, ok token) = record {
  engine = engine;
  run_of = put_at token run_id s.run_of;
  phase = put_at token ready s.phase;
}

unfoldable pub prepare : Admission → Bytes → PreparedExecutionKind → Admission
unfolding prepared_with
prepare s run_id kind = prepared_with s run_id (reserve_run_identity s.engine run_id kind)

-- abortLocked, and rollbackPreparedResources for its part of the engine
unfoldable pub abort_locked : Admission → Engine → ℕ → Admission
unfolding enter_phase
abort_locked s engine token =
    enter_phase s token gone (abort_run_identity_reservation engine (s.run_of token) token).0

unfoldable pub committed_with : Admission → ℕ → Bool → Engine × Option EngineError → Admission
unfolding enter_phase abort_locked
committed_with s token immediate (engine, some failure) = abort_locked s engine token
committed_with s token immediate (engine, none) =
    enter_phase s token (if immediate then running else paused) engine

unfoldable pub activated_with : Admission → ℕ → Engine × Option IdentityError → Admission
unfolding enter_phase
activated_with s token (engine, some failure) = record s { engine = engine }
activated_with s token (engine, none) = enter_phase s token running engine

unfoldable pub retired_with : Admission → ℕ → Engine × Option IdentityError → Admission
unfolding enter_phase
retired_with s token (engine, some failure) = record s { engine = engine }
retired_with s token (engine, none) = enter_phase s token retired engine

unfoldable pub unregistered_with :
    Admission → ℕ → HandlePhase → Option (Engine × Option IdentityError) → Option Admission
unfolding enter_phase
unregistered_with s token phase none = none
unregistered_with s token phase (some (engine, failure)) = some (enter_phase s token phase engine)

-- commitPaused; `ended` says that the root context is nil or done
unfoldable pub commit_in : HandlePhase → Admission → ℕ → Bool → Bool → Admission
unfolding committed_with abort_locked
commit_in ready s token ended immediate =
    if ended
    then abort_locked s s.engine token
    else committed_with s token immediate (commit_engine s.engine (s.run_of token) token immediate)
commit_in _ s token ended immediate = s

unfoldable pub commit_paused : Admission → ℕ → Bool → Bool → Admission
unfolding commit_in
commit_paused s token ended immediate = commit_in (s.phase token) s token ended immediate

-- abort of a preparedExecution
unfoldable pub abort_in : HandlePhase → Admission → ℕ → Admission
unfolding abort_locked
abort_in ready s token = abort_locked s s.engine token
abort_in _ s token = s

unfoldable pub abort_prepared : Admission → ℕ → Admission
unfolding abort_in
abort_prepared s token = abort_in (s.phase token) s token

-- Activate
unfoldable pub activate_in : HandlePhase → Admission → ℕ → Admission
unfolding activated_with
activate_in paused s token =
    activated_with s token (activate_run_identity s.engine (s.run_of token) token)
activate_in _ s token = s

unfoldable pub activate : Admission → ℕ → Admission
unfolding activate_in
activate s token = activate_in (s.phase token) s token

-- Abort of a PreparedRun, up to its wait
unfoldable pub abort_paused_in : HandlePhase → Admission → ℕ → Admission
unfolding enter_phase
abort_paused_in paused s token = enter_phase s token aborting s.engine
abort_paused_in _ s token = s

unfoldable pub abort_paused : Admission → ℕ → Admission
unfolding abort_paused_in
abort_paused s token = abort_paused_in (s.phase token) s token

-- The ends of the goroutine of a run, complete and completeInert, once each; `none` is a panic.
unfoldable pub finalize_in : HandlePhase → Admission → ℕ → Option Admission
unfolding unregistered_with
finalize_in running s token =
    unregistered_with s token finished (complete_run_identity s.engine (s.run_of token) token)
finalize_in aborting s token =
    unregistered_with s token gone (abort_registered_run_identity s.engine (s.run_of token) token)
finalize_in _ s token = some s

unfoldable pub finalize : Admission → ℕ → Option Admission
unfolding finalize_in
finalize s token = finalize_in (s.phase token) s token

-- RunIdentityRetirement.Retire, which a run that was committed offers at any time. After a success it
-- does nothing.
unfoldable pub retire_in : HandlePhase → Admission → ℕ → Admission
unfolding retired_with
retire_in unissued s token = s
retire_in ready s token = s
retire_in retired s token = s
retire_in _ s token = retired_with s token (retire_run_identity s.engine (s.run_of token) token)

unfoldable pub retire : Admission → ℕ → Admission
unfolding retire_in
retire s token = retire_in (s.phase token) s token

-- stop, before its wait
unfoldable pub stop_engine : Admission → Admission
stop_engine s = record s { engine = record (s.engine) { closed = true } }
