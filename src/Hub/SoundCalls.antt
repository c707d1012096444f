-- ===== src/Hub/SoundCalls.antt =====
-- daemon/pending.go: Request, Respond and complete keep the counters of the hub true.
use spice_agent.Base.{
  ℕ, ◌+◌, ◌-◌, ◌≡◌, refl, inl, Bool, false, not, if_intro, length, ltb, ◌==◌, Option, none, some,
  arith, Bytes, bytes_eq, ContextError, find_key, max_u64,
}
use spice_agent.Session.Types.{bounded_token}
use spice_agent.Interaction.{Scope, Request, Response, valid_scope, valid_request, valid_response}
use spice_agent.Hub.Types.{
  Pending, PendingKey, PendingCall, CallResult, RunBinding, pending_value_bytes, key_of,
}
use spice_agent.Hub.Store.{Partition, PendingHub, find_call, find_binding, has_pending_capacity}
use spice_agent.Hub.Operations.{
  missing, open_in, request_bound, request, finish_call, respond_call, respond_in, respond_bound,
  respond, complete_call, complete_in, complete_request,
}
use spice_agent.Hub.Shares.{rest_of, other_calls, share, unshare}
use spice_agent.Hub.ShareCalls.{
  has_pending_capacity-HasCapacity, open_call-IsShare, close_call-IsShare,
}
use spice_agent.Hub.Sound.{IsSound, SoundAfter, remove_released-IsSound}

open_in-IsSound :
    (hub : PendingHub) (value : Pending) (b : RunBinding) (found : Option Partition)
    → find_key b.client_id hub.partitions ≡ found
    → IsSound hub
    → IsSound (open_in hub value b found).0
unfolding open_in
open_in-IsSound hub value b none found s = s
open_in-IsSound hub value b (some p) found s =
    let size = pending_value_bytes value in
    let call : PendingCall = record { token = hub.next_token; value = value; binding = b.token } in
    if_intro SoundAfter (not (missing (find_call (key_of value) p.pending))) (λ _. s)
      (λ _.
        if_intro SoundAfter (not (has_pending_capacity hub.limits hub.calls p size)) (λ _. s)
          (λ room.
            if_intro SoundAfter (ltb (max_u64 - (length p.pending + 2)) p.revision) (λ _. s)
              (λ _. record {
                funded = s.funded;
                accounted =
                    unshare hub.limits hub.usage _ hub.calls _ b.client_id p _ hub.partitions
                      s.accounted (inl found)
                      (open_call-IsShare hub.limits (rest_of hub.usage p.usage)
                        (other_calls hub.calls p) call hub.usage hub.calls p s.funded
                        (has_pending_capacity-HasCapacity hub.limits hub.calls p size
                          (ground arith))
                        (share hub.limits hub.usage hub.calls b.client_id p hub.partitions
                          s.accounted (inl found)));
              })))

request_bound-IsSound :
    (hub : PendingHub) (value : Pending) (found : Option RunBinding)
    → IsSound hub
    → IsSound (request_bound hub value found).0
unfolding request_bound
request_bound-IsSound hub value none s = s
request_bound-IsSound hub value (some b) s =
    if_intro SoundAfter (not b.accepting) (λ _. s) (λ _. open_in-IsSound hub value b _ refl s)

pub request-IsSound :
    (json_valid : Bytes → Bool) (ended : Option ContextError) (hub : PendingHub) (scope : Scope)
    (r : Request)
    → IsSound hub
    → IsSound (request json_valid ended hub scope r).0
unfolding request
request-IsSound json_valid (some c) hub scope r s = s
request-IsSound json_valid none hub scope r s =
    if_intro SoundAfter (not (valid_scope scope)) (λ _. s)
      (λ _.
        if_intro SoundAfter (not (valid_request json_valid r)) (λ _. s)
          (λ _. if_intro SoundAfter hub.closed (λ _. s) (λ _. request_bound-IsSound hub _ _ s)))

pub finish_call-IsSound :
    (client : Bytes) (key : PendingKey) (call : PendingCall) (result : CallResult) (p : Partition)
    (hub : PendingHub)
    → find_key client hub.partitions ≡ some p
    → find_call key p.pending ≡ some call
    → IsSound hub
    → IsSound (finish_call client key call result p hub)
unfolding finish_call
finish_call-IsSound client key call result p hub found pending s =
    remove_released-IsSound call.binding _ (record {
      funded = s.funded;
      accounted =
          unshare hub.limits hub.usage _ hub.calls _ client p _ hub.partitions s.accounted
            (inl found)
            (close_call-IsShare hub.limits (rest_of hub.usage p.usage) (other_calls hub.calls p) key
              call hub.usage hub.calls p s.funded pending
              (share hub.limits hub.usage hub.calls client p hub.partitions s.accounted
                (inl found)));
    })

respond_call-IsSound :
    (client : Bytes) (key : PendingKey) (response : Response) (p : Partition)
    (found : Option PendingCall) (hub : PendingHub)
    → find_key client hub.partitions ≡ some p
    → find_call key p.pending ≡ found
    → IsSound hub
    → IsSound (respond_call client key response p found hub).0
unfolding respond_call
respond_call-IsSound client key response p none hub place pending s = s
respond_call-IsSound client key response p (some call) hub place pending s =
    finish_call-IsSound client key call _ p hub place pending s

respond_in-IsSound :
    (client : Bytes) (key : PendingKey) (response : Response) (found : Option Partition)
    (hub : PendingHub)
    → find_key client hub.partitions ≡ found
    → IsSound hub
    → IsSound (respond_in client key response found hub).0
unfolding respond_in
respond_in-IsSound client key response none hub found s = s
respond_in-IsSound client key response (some p) hub found s =
    respond_call-IsSound client key response p _ hub found refl s

respond_bound-IsSound :
    (client : Bytes) (key : PendingKey) (response : Response) (found : Option RunBinding)
    (hub : PendingHub)
    → IsSound hub
    → IsSound (respond_bound client key response found hub).0
unfolding respond_bound
respond_bound-IsSound client key response none hub s = s
respond_bound-IsSound client key response (some b) hub s =
    if_intro SoundAfter (not (bytes_eq b.client_id client)) (λ _. s)
      (λ _. respond_in-IsSound client key response _ hub refl s)

pub respond-IsSound :
    (json_valid : Bytes → Bool) (hub : PendingHub) (client : Bytes) (scope : Scope)
    (response : Response)
    → IsSound hub
    → IsSound (respond json_valid hub client scope response).0
unfolding respond
respond-IsSound json_valid hub client scope response s =
    if_intro SoundAfter (not (bounded_token client)) (λ _. s)
      (λ _.
        if_intro SoundAfter (not (valid_scope scope)) (λ _. s)
          (λ _.
            if_intro SoundAfter (not (valid_response json_valid response)) (λ _. s)
              (λ _.
                if_intro SoundAfter hub.closed (λ _. s)
                  (λ _. respond_bound-IsSound client _ response _ hub s))))

complete_call-IsSound :
    (client : Bytes) (key : PendingKey) (t : ℕ) (result : CallResult) (p : Partition)
    (found : Option PendingCall) (hub : PendingHub)
    → find_key client hub.partitions ≡ some p
    → find_call key p.pending ≡ found
    → IsSound hub
    → IsSound (complete_call client key t result p found hub).0
unfolding complete_call
complete_call-IsSound client key t result p none hub place pending s = s
complete_call-IsSound client key t result p (some call) hub place pending s =
    if_intro SoundAfter (call.token == t)
      (λ _. finish_call-IsSound client key call result p hub place pending s) (λ _. s)

complete_in-IsSound :
    (client : Bytes) (key : PendingKey) (t : ℕ) (result : CallResult) (found : Option Partition)
    (hub : PendingHub)
    → find_key client hub.partitions ≡ found
    → IsSound hub
    → IsSound (complete_in client key t result found hub).0
unfolding complete_in
complete_in-IsSound client key t result none hub found s = s
complete_in-IsSound client key t result (some p) hub found s =
    complete_call-IsSound client key t result p _ hub found refl s

pub complete_request-IsSound :
    (call : PendingCall) (result : CallResult) (hub : PendingHub)
    → IsSound hub
    → IsSound (complete_request call result hub).0
unfolding complete_request
complete_request-IsSound call result hub s =
    elim (find_binding call.binding hub.bindings)
      as (λ o. SoundAfter (elim o as (λ _. PendingHub × Bool) [
        | none ↦ (hub, false)
        | some b ↦
            complete_in b.client_id (key_of call.value) call.token result
              (find_key b.client_id hub.partitions) hub
      ])) [ none ↦ s | some b ↦ complete_in-IsSound b.client_id _ call.token result _ hub refl s ]
