-- ===== src/Hub/Examples.antt =====
-- daemon/pending.go on one client with one run, one observer and one pending call.
use spice_agent.Base.{
  ◌≢◌, max_u64, ◌+◌, ◌≤◌, ◌≡◌, refl, arith, ◌<◌, Bool, true, false, length, [], ◌∷◌, ◌++◌, All,
  Option, none, some, Bytes, ok, bytes_eq, blank_or_padded, trim_space, find_key, put_key, sum_over,
  inl, add64,
}
use spice_agent.Session.Types.{bounded_token, has_control}
use spice_agent.Interaction.{
  Response, valid_response, new_response, valid_scope, new_scope, token, valid_request, new_request,
  check_prompt, validate_json, Scope, Request,
}
use spice_agent.Hub.Types.{default_pending_limits, Pending, opened, Delta, pending_value_bytes}
use spice_agent.Hub.Limits.{
  validate_pending_limits, validate_counts, validate_bytes, validate_funding, first_failure,
}
use spice_agent.Hub.Watchers.{
  over_reserved, new_watcher, reserve, offer_deltas, offer_delta, refuse_delta,
}
use spice_agent.Hub.Store.{
  Partition, PendingHub, fresh_hub, new_pending_hub, publish, partition_for, empty_partition,
  find_binding, find_call, has_pending_capacity, open_call, update_binding,
}
use spice_agent.Hub.Operations.{
  respond, respond_bound, respond_in, respond_call, bind_run, bind_in, request, request_bound,
  binding_of, open_in,
}
use spice_agent.Hub.Observing.{fence_observers, subscribe_pending, subscribe_in, snapshot_of}
use spice_agent.Hub.Booking.{queue_bytes}
use spice_agent.Hub.Accounts.{call_bytes}
use spice_agent.Hub.Sound.{IsSound}
use spice_agent.Hub.Reachable.{binds, subscribes, requests, Reaches, starts, follows}
use spice_agent.Hub.Runs.{HasBoundRuns}
use spice_agent.Hub.RunReached.{Reaches-HasBoundRuns}
use spice_agent.Hub.Bounds.{Reaches-new_pending_hub, queues_bounded}
use spice_agent.Hub.Takers.{publish-takers, takers, droppers}
use spice_agent.Hub.Mirror.{IsMirror}
use spice_agent.Hub.Observers.{observers_in_step, revisions_bounded, IsFenced, fence_observers_lem}
use spice_agent.Hub.Answers.{IsAbsent, key_for, respond-respond}
use spice_agent.Hub.Funding.{over_reserved-false}

abbrev json_valid : Bytes → Bool
json_valid value = true

abbrev start : PendingHub
start = fresh_hub default_pending_limits

start_made : new_pending_hub default_pending_limits ≡ ok start
unfolding new_pending_hub validate_pending_limits validate_counts validate_bytes validate_funding
    first_failure
start_made = refl

abbrev client : Bytes
client = 99 ∷ []

abbrev scope : Scope
scope = record { run_id = 114 ∷ [] }

abbrev question : Request
question = record { id = 105 ∷ []; kind = 107 ∷ []; prompt = 112 ∷ []; schema = 123 ∷ 125 ∷ [] }

abbrev bound : PendingHub
bound = (bind_run start client scope).0

abbrev observed : PendingHub
observed = (subscribe_pending none bound client).0

abbrev asked : PendingHub
asked = (request json_valid none observed scope question).0

asked_reached : Reaches json_valid start asked
asked_reached =
    follows (follows (follows starts (binds client scope)) (subscribes none client))
      (requests none scope question)

-- The client's partition, from a lookup.
abbrev or_new : Option Partition → Partition
or_new none = empty_partition
or_new (some p) = p

abbrev observed_client : Partition
observed_client = or_new (find_key client observed.partitions)

abbrev asked_client : Partition
asked_client = or_new (find_key client asked.partitions)

observed_found : find_key client observed.partitions ≡ some observed_client
unfolding find_key put_key bind_run bind_in partition_for bounded_token has_control blank_or_padded
    trim_space valid_scope new_scope token subscribe_pending subscribe_in over_reserved reserve
    new_watcher snapshot_of bytes_eq
observed_found = refl

asked_found : find_key client asked.partitions ≡ some asked_client
unfolding find_key put_key bind_run bind_in partition_for bounded_token has_control blank_or_padded
    trim_space valid_scope new_scope token subscribe_pending subscribe_in over_reserved reserve
    new_watcher snapshot_of bytes_eq request request_bound binding_of find_binding open_in find_call
    has_pending_capacity open_call valid_request new_request check_prompt validate_json
    pending_value_bytes update_binding publish offer_deltas offer_delta refuse_delta
asked_found = refl

Reaches-HasBoundRuns_example : IsSound asked × HasBoundRuns asked
Reaches-HasBoundRuns_example =
    Reaches-HasBoundRuns json_valid default_pending_limits start asked start_made asked_reached

queues_bounded_example :
    All
      (λ w.
        (length w.queue ≤ asked.limits.observer_queue_entries)
        × (queue_bytes w.queue ≤ asked.limits.observer_queue_bytes))
      asked_client.watchers
    × (length asked_client.watchers ≤ asked.limits.observers_per_client)
    × (length asked_client.pending ≤ asked.limits.pending_per_client)
    × (call_bytes asked_client.pending ≤ asked.limits.pending_bytes_per_client)
    × (sum_over (λ q. length q.pending) asked.partitions ≤ asked.limits.pending)
    × (sum_over (λ q. q.usage.entries) asked.partitions ≤ asked.limits.queued_entries)
    × (sum_over (λ q. q.usage.bytes) asked.partitions ≤ asked.limits.queued_bytes)
queues_bounded_example =
    queues_bounded json_valid default_pending_limits start asked client asked_client start_made
      asked_reached asked_found

observed-IsSound : IsSound observed
observed-IsSound =
    Reaches-new_pending_hub json_valid default_pending_limits start observed start_made
      (follows (follows starts (binds client scope)) (subscribes none client))

abbrev value : Pending
value = record { scope = scope; request = question }

publish-takers_example :
    let after = publish observed.limits opened value observed.usage observed_client in
    let d : Delta = record {
      revision = add64 observed_client.revision 1;
      kind = opened;
      pending = value;
    } in
    (after.1.watchers ≡ takers observed.limits d observed_client.watchers)
    × (after.1.stopping
        ≡ droppers observed.limits d observed_client.watchers ++ observed_client.stopping)
publish-takers_example =
    publish-takers observed client observed_client opened value observed-IsSound observed_found

few_observers : (observed.usage.observers < 32) × (length observed_client.watchers < 4)
unfolding find_key put_key bind_run bind_in partition_for bounded_token has_control blank_or_padded
    trim_space valid_scope new_scope token subscribe_pending subscribe_in over_reserved reserve
    new_watcher snapshot_of bytes_eq
few_observers = (omega arith, omega arith)

default_valid : validate_pending_limits default_pending_limits ≡ ok tt
unfolding validate_pending_limits validate_counts validate_bytes validate_funding first_failure
default_valid = refl

over_reserved-false_example :
    over_reserved default_pending_limits observed.usage observed_client.usage ≡ false
unfolding subscribe_pending blank_or_padded bind_run
over_reserved-false_example =
    over_reserved-false default_pending_limits observed.usage observed.calls client observed_client
      observed.partitions default_valid observed-IsSound.accounted (inl observed_found)
      few_observers.0 few_observers.1

observers_in_step_example :
    All (IsMirror asked_client.revision asked_client.pending) asked_client.watchers
observers_in_step_example =
    observers_in_step json_valid default_pending_limits start asked client asked_client start_made
      asked_reached asked_found

revisions_bounded_example : asked_client.revision + length asked_client.pending ≤ max_u64
revisions_bounded_example =
    revisions_bounded json_valid default_pending_limits start asked client asked_client start_made
      asked_reached asked_found

client_named : bounded_token client ≡ true
unfolding bounded_token has_control blank_or_padded trim_space bytes_eq
client_named = refl

asked_open : asked.closed ≡ false
unfolding find_key put_key bind_run bind_in partition_for bounded_token has_control blank_or_padded
    trim_space valid_scope new_scope token subscribe_pending subscribe_in over_reserved reserve
    new_watcher snapshot_of bytes_eq request request_bound binding_of find_binding open_in find_call
    has_pending_capacity open_call valid_request new_request check_prompt validate_json
    pending_value_bytes update_binding publish offer_deltas offer_delta refuse_delta
asked_open = refl

fence_observers_lem_example : IsFenced asked client asked_client (fence_observers asked client)
fence_observers_lem_example =
    fence_observers_lem asked client asked_client client_named asked_open asked_found

abbrev answer : Response
answer = record { id = 105 ∷ []; value = 49 ∷ [] }

answer_accepted : (respond json_valid asked client scope answer).1 ≡ none
unfolding find_key put_key bind_run bind_in partition_for bounded_token has_control blank_or_padded
    trim_space valid_scope new_scope token subscribe_pending subscribe_in over_reserved reserve
    new_watcher snapshot_of bytes_eq request request_bound binding_of find_binding open_in find_call
    has_pending_capacity open_call valid_request new_request check_prompt validate_json
    pending_value_bytes update_binding publish offer_deltas offer_delta refuse_delta respond
    respond_bound respond_in respond_call valid_response new_response
answer_accepted = refl

respond-respond_example :
    IsAbsent client
      (key_for scope answer)
      (respond json_valid asked client scope answer).0.partitions
    × ((respond json_valid (respond json_valid asked client scope answer).0 client scope answer).1
        ≢ none)
respond-respond_example =
    respond-respond json_valid default_pending_limits start asked client scope answer answer
      start_made asked_reached answer_accepted refl
