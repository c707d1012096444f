-- ===== src/Agent/Engine.antt =====
-- agent/agent.go, agent/prepared_execution.go, agent/run_identity.go: what the engine keeps of its runs.
-- Each function does what its Go namesake does while it holds the lock of the engine.
use spice_agent.Base.{
  ℕ, Bool, true, false, if◌then◌else◌, List, [], ◌∷◌, Option, none, some, Result, ok, err, Bytes,
  put_key, delete_key,
}
use spice_agent.Agent.Ledger.{
  IdentityError, PreparedExecutionKind, RunIdentityLedger, RunIdentityLimits,
  new_run_identity_ledger, reserve_identity, run_identity_active, run_identity_reserved,
  run_identity_tombstone,
}
use spice_agent.Agent.Transitions.{abort_identity, retire_identity, transition}

-- A run that is registered stands in `active` by its identity token. `drained` says whether the channel
-- of that name is closed.
pub record Engine : Type 0 where
  pub identities : RunIdentityLedger
  pub active : List (Bytes × ℕ)
  pub closed : Bool
  pub drained : Bool

pub data EngineError : Type 0 where
  engine_closed : EngineError
  identity_failure : IdentityError → EngineError

-- The state that NewEngine starts from.
unfoldable pub new_engine : RunIdentityLimits → Engine
new_engine limits = record {
  identities = new_run_identity_ledger limits;
  active = [];
  closed = false;
  drained = true;
}

-- reserveRunIdentity
unfoldable pub reserve_run_identity :
    Engine → Bytes → PreparedExecutionKind → Engine × Result EngineError ℕ
reserve_run_identity engine run_id kind =
    let (ledger, answer) = reserve_identity engine.identities run_id kind in
    if engine.closed then (engine, err engine_closed) else (
      record engine { identities = ledger },
      elim answer [ ok token ↦ ok token | err failure ↦ err (identity_failure failure) ],
    )

-- abortRunIdentityReservation
unfoldable pub abort_run_identity_reservation : Engine → Bytes → ℕ → Engine × Option IdentityError
abort_run_identity_reservation engine run_id token =
    let (ledger, failure) = abort_identity engine.identities run_id token in
    (record engine { identities = ledger }, failure)

-- retireRunIdentity
unfoldable pub retire_run_identity : Engine → Bytes → ℕ → Engine × Option IdentityError
retire_run_identity engine run_id token =
    let (ledger, failure) = retire_identity engine.identities run_id token in
    (record engine { identities = ledger }, failure)

-- activateRunIdentity
unfoldable pub activate_run_identity : Engine → Bytes → ℕ → Engine × Option IdentityError
activate_run_identity engine run_id token =
    let (ledger, failure) =
      transition engine.identities run_id token run_identity_reserved run_identity_active in
    (record engine { identities = ledger }, failure)

unfoldable pub is_empty {ℓ} : {A : Type ℓ} → List A → Bool
is_empty [] = true
is_empty (x ∷ xs) = false

-- The registration in commitPaused: an engine without runs gets a new `drained` channel.
unfoldable pub register_run : Engine → Bytes → ℕ → Engine
unfolding is_empty
register_run engine run_id token = record engine {
  drained = if is_empty engine.active then false else engine.drained;
  active = put_key run_id token engine.active;
}

-- The registration after the transition of commitPaused.
unfoldable pub register_moved :
    Engine → Bytes → ℕ → RunIdentityLedger × Option IdentityError → Engine × Option EngineError
unfolding register_run
register_moved engine run_id token (ledger, some failure) =
    (record engine { identities = ledger }, some (identity_failure failure))
register_moved engine run_id token (ledger, none) =
    (register_run (record engine { identities = ledger }) run_id token, none)

-- What commitPaused does under the lock of the engine.
unfoldable pub commit_engine : Engine → Bytes → ℕ → Bool → Engine × Option EngineError
unfolding register_moved register_run
commit_engine engine run_id token activate_immediately =
    let moved =
      transition engine.identities run_id token run_identity_reserved run_identity_active in
    if engine.closed
    then (engine, some engine_closed)
    else if activate_immediately
    then register_moved engine run_id token moved
    else (register_run engine run_id token, none)

-- `delete(engine.active, runID)` and the close of `drained`. `none` is the panic of a second close.
unfoldable pub unregister_run :
    Engine
    → Bytes
    → RunIdentityLedger × Option IdentityError
    → Option (Engine × Option IdentityError)
unfolding is_empty
unregister_run engine run_id (ledger, failure) =
    let active = delete_key run_id engine.active in
    let left = record engine { identities = ledger; active = active } in
    if is_empty active
    then if engine.drained then none else some (record left { drained = true }, failure)
    else some (left, failure)

-- completeRunIdentity
unfoldable pub complete_run_identity : Engine → Bytes → ℕ → Option (Engine × Option IdentityError)
unfolding unregister_run
complete_run_identity engine run_id token =
    unregister_run engine run_id
      (transition engine.identities run_id token run_identity_active run_identity_tombstone)

-- abortRegisteredRunIdentity
unfoldable pub abort_registered_run_identity :
    Engine → Bytes → ℕ → Option (Engine × Option IdentityError)
unfolding unregister_run
abort_registered_run_identity engine run_id token =
    unregister_run engine run_id (abort_identity engine.identities run_id token)
