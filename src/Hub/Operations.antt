-- ===== src/Hub/Operations.antt =====
-- daemon/pending.go: the calls on the hub, each under its lock, and the steps of the goroutines.
use spice_agent.Base.{
  ℕ, suc, ◌+◌, ◌-◌, Bool, true, false, ◌||◌, not, if◌then◌else◌, ltb, leb, ◌==◌, length, ◌∷◌,
  Option, none, some, Bytes, bytes_eq, Result, ok, err, ContextError, max_u64, find_key, put_key,
  delete_key,
}
use spice_agent.Session.Types.{bounded_token}
use spice_agent.Interaction.{Scope, Request, Response, valid_scope, valid_request, valid_response}
use spice_agent.Hub.Types.{
  HubError, hub_closed, run_not_bound, run_already_bound, run_capacity, pending_capacity,
  not_pending, already_pending, bad_client, bad_scope, bad_request, bad_response, context_failed,
  Pending, PendingKey, key_of, CallResult, responded, PendingCall, RunBinding, pending_value_bytes,
}
use spice_agent.Hub.Store.{
  Partition, PendingHub, partition_for, find_call, find_binding, update_binding,
  has_pending_capacity, open_call, close_call,
}

abbrev pub missing {ℓ} : {A : Type ℓ} → Option A → Bool
missing none = true
missing (some a) = false

-- BindRun. A partition that partitionLocked created stays, also when its run is refused.
unfoldable pub bind_in :
    PendingHub → Bytes → Bytes → Option Partition → PendingHub × Result HubError ℕ
unfolding put_key
bind_in hub client run none = (hub, err run_capacity)
bind_in hub client run (some p) =
    let t = hub.next_token in
    if leb hub.limits.runs_per_client p.bound_runs
    then (record hub { partitions = put_key client p hub.partitions }, err run_capacity)
    else (
      record hub {
        partitions = put_key client (record p { bound_runs = suc p.bound_runs }) hub.partitions;
        runs = put_key run t hub.runs;
        bindings =
            record {
              token = t;
              client_id = client;
              run_id = run;
              accepting = true;
              active = 0;
              released = false;
            }
            ∷ hub.bindings;
        next_token = suc t;
      },
      ok t,
    )

unfoldable pub bind_run : PendingHub → Bytes → Scope → PendingHub × Result HubError ℕ
unfolding bounded_token valid_scope find_key partition_for bind_in
bind_run hub client scope =
    if not (bounded_token client)
    then (hub, err bad_client)
    else if not (valid_scope scope)
    then (hub, err bad_scope)
    else if hub.closed
    then (hub, err hub_closed)
    else if not (missing (find_key scope.run_id hub.runs))
    then (hub, err run_already_bound)
    else if leb hub.limits.runs (length hub.runs)
    then (hub, err run_capacity)
    else bind_in hub client scope.run_id (partition_for hub.limits client hub.partitions)

-- removeReleasedBindingLocked
abbrev pub is_token : ℕ → Option ℕ → Bool
is_token t none = false
is_token t (some u) = u == t

unfoldable pub drop_run : Option Partition → RunBinding → PendingHub → PendingHub
unfolding put_key delete_key update_binding
drop_run found b hub =
    let without = record hub {
      runs = delete_key b.run_id hub.runs;
      bindings = update_binding b.token (λ x. record x { released = true }) hub.bindings;
    } in
    elim found [
      | none ↦ without
      | some p ↦ record without {
        partitions =
            put_key b.client_id (record p { bound_runs = p.bound_runs - 1 }) hub.partitions;
      }
    ]

unfoldable pub remove_if_released : Option RunBinding → PendingHub → PendingHub
unfolding drop_run find_key
remove_if_released none hub = hub
remove_if_released (some b) hub =
    if b.accepting || not (b.active == 0) || not (is_token b.token (find_key b.run_id hub.runs))
    then hub
    else drop_run (find_key b.client_id hub.partitions) b hub

unfoldable pub remove_released : ℕ → PendingHub → PendingHub
unfolding remove_if_released find_binding
remove_released t hub = remove_if_released (find_binding t hub.bindings) hub

-- RunBinding.Release
unfoldable pub release_run : ℕ → PendingHub → PendingHub
unfolding remove_released update_binding
release_run t hub =
    remove_released t (record hub {
      bindings = update_binding t (λ x. record x { accepting = false }) hub.bindings;
    })

-- Request, once its binding, its partition and the call with its key are looked up.
unfoldable pub open_in :
    PendingHub → Pending → RunBinding → Option Partition → PendingHub × Result HubError ℕ
unfolding find_call pending_value_bytes has_pending_capacity open_call put_key update_binding
open_in hub value b none = (hub, err run_not_bound)
open_in hub value b (some p) =
    let t = hub.next_token in
    let (calls, usage, p') =
      open_call hub.limits (record { token = t; value = value; binding = b.token }) hub.calls
        hub.usage p in
    if not (missing (find_call (key_of value) p.pending))
    then (hub, err already_pending)
    else if not (has_pending_capacity hub.limits hub.calls p (pending_value_bytes value))
    then (hub, err pending_capacity)
    else if ltb (max_u64 - (length p.pending + 2)) p.revision
    then (hub, err pending_capacity)
    else (
      record hub {
        calls = calls;
        usage = usage;
        partitions = put_key b.client_id p' hub.partitions;
        bindings = update_binding b.token (λ x. record x { active = suc x.active }) hub.bindings;
        next_token = suc t;
      },
      ok t,
    )

unfoldable pub request_bound :
    PendingHub → Pending → Option RunBinding → PendingHub × Result HubError ℕ
unfolding open_in find_key
request_bound hub value none = (hub, err run_not_bound)
request_bound hub value (some b) =
    if not b.accepting
    then (hub, err run_not_bound)
    else open_in hub value b (find_key b.client_id hub.partitions)

-- The binding of a run.
unfoldable pub binding_of : PendingHub → Bytes → Option RunBinding
unfolding find_key find_binding
binding_of hub run = elim (find_key run hub.runs) [
  | none ↦ none
  | some t ↦ find_binding t hub.bindings
]

-- Request up to its wait: the token of the call.
unfoldable pub request :
    (Bytes → Bool)
    → Option ContextError
    → PendingHub
    → Scope
    → Request
    → PendingHub × Result HubError ℕ
unfolding valid_scope valid_request request_bound binding_of
request json_valid (some c) hub scope r = (hub, err (context_failed c))
request json_valid none hub scope r =
    if not (valid_scope scope)
    then (hub, err bad_scope)
    else if not (valid_request json_valid r)
    then (hub, err bad_request)
    else if hub.closed
    then (hub, err hub_closed)
    else request_bound hub (record { scope = scope; request = r }) (binding_of hub scope.run_id)

-- finishCallLocked, for a call of a client's partition; then its channel is closed.
unfoldable pub finish_call :
    Bytes → PendingKey → PendingCall → CallResult → Partition → PendingHub → PendingHub
unfolding close_call put_key update_binding remove_released
finish_call client key call result p hub =
    let (calls, usage, p') = close_call hub.limits key call hub.calls hub.usage p in
    remove_released call.binding (record hub {
      calls = calls;
      usage = usage;
      partitions = put_key client p' hub.partitions;
      bindings = update_binding call.binding (λ x. record x { active = x.active - 1 }) hub.bindings;
      results = (call.token, result) ∷ hub.results;
    })

-- Respond, by the call with the key of the response.
unfoldable pub respond_call :
    Bytes
    → PendingKey
    → Response
    → Partition
    → Option PendingCall
    → PendingHub
    → PendingHub × Option HubError
unfolding finish_call
respond_call client key response p none hub = (hub, some not_pending)
respond_call client key response p (some call) hub =
    (finish_call client key call (responded response) p hub, none)

unfoldable pub respond_in :
    Bytes → PendingKey → Response → Option Partition → PendingHub → PendingHub × Option HubError
unfolding respond_call find_call
respond_in client key response none hub = (hub, some run_not_bound)
respond_in client key response (some p) hub =
    respond_call client key response p (find_call key p.pending) hub

unfoldable pub respond_bound :
    Bytes → PendingKey → Response → Option RunBinding → PendingHub → PendingHub × Option HubError
unfolding respond_in find_key
respond_bound client key response none hub = (hub, some run_not_bound)
respond_bound client key response (some b) hub =
    if not (bytes_eq b.client_id client)
    then (hub, some run_not_bound)
    else respond_in client key response (find_key client hub.partitions) hub

-- Respond
unfoldable pub respond :
    (Bytes → Bool) → PendingHub → Bytes → Scope → Response → PendingHub × Option HubError
unfolding bounded_token valid_scope valid_response respond_bound binding_of
respond json_valid hub client scope response =
    if not (bounded_token client)
    then (hub, some bad_client)
    else if not (valid_scope scope)
    then (hub, some bad_scope)
    else if not (valid_response json_valid response)
    then (hub, some bad_response)
    else if hub.closed
    then (hub, some hub_closed)
    else respond_bound client (record { run_id = scope.run_id; interaction_id = response.id })
        response (binding_of hub scope.run_id) hub

-- complete, the end of a Request whose context is done: it finishes its call if no other did.
unfoldable pub complete_call :
    Bytes
    → PendingKey
    → ℕ
    → CallResult
    → Partition
    → Option PendingCall
    → PendingHub
    → PendingHub × Bool
unfolding finish_call
complete_call client key t result p none hub = (hub, false)
complete_call client key t result p (some call) hub =
    if call.token == t then (finish_call client key call result p hub, true) else (hub, false)

unfoldable pub complete_in :
    Bytes → PendingKey → ℕ → CallResult → Option Partition → PendingHub → PendingHub × Bool
unfolding complete_call find_call
complete_in client key t result none hub = (hub, false)
complete_in client key t result (some p) hub =
    complete_call client key t result p (find_call key p.pending) hub

unfoldable pub complete_request : PendingCall → CallResult → PendingHub → PendingHub × Bool
unfolding complete_in find_key find_binding
complete_request call result hub = elim (find_binding call.binding hub.bindings) [
  | none ↦ (hub, false)
  | some b ↦
      complete_in b.client_id (key_of call.value) call.token result
        (find_key b.client_id hub.partitions) hub
]
