-- ===== src/Hub/RunEnds.antt =====
-- daemon/pending.go, Request, Respond and complete: calls leave the bound runs counted.
use spice_agent.Base.{
  ℕ, suc, ◌+◌, ◌-◌, ◌≡◌, refl, Bool, false, not, if_intro, length, ltb, ◌==◌, Option, none, some,
  arith, Bytes, bytes_eq, ContextError, find_key, max_u64,
}
use spice_agent.Session.Types.{bounded_token}
use spice_agent.Interaction.{Scope, Request, Response, valid_scope, valid_request, valid_response}
use spice_agent.Hub.Types.{
  Pending, PendingKey, PendingCall, CallResult, RunBinding, key_of, pending_value_bytes,
}
use spice_agent.Hub.Store.{
  Partition, PendingHub, find_binding, find_call, has_pending_capacity, open_call, close_call,
  publish,
}
use spice_agent.Hub.Operations.{
  missing, open_in, request_bound, request, finish_call, respond_call, respond_in, respond_bound,
  respond, complete_call, complete_in, complete_request,
}
use spice_agent.Hub.Runs.{HasBoundRuns, BoundAfter, owned_by-update}
use spice_agent.Hub.RunCalls.{Fits, found-Fits, put-HasBoundRuns, other-HasBoundRuns}
use spice_agent.Hub.RunDrops.{remove_released-HasBoundRuns}

-- A call that opens or ends leaves the bound runs.
open_in-HasBoundRuns :
    (hub : PendingHub) (value : Pending) (b : RunBinding) (found : Option Partition)
    → Fits hub.limits b.client_id hub.partitions found
    → HasBoundRuns hub
    → BoundAfter (open_in hub value b found)
unfolding open_in open_call publish
open_in-HasBoundRuns hub value b none fits v = v
open_in-HasBoundRuns hub value b (some p) fits v =
    if_intro BoundAfter (not (missing (find_call (key_of value) p.pending))) (λ _. v)
      (λ _.
        if_intro BoundAfter
          (not (has_pending_capacity hub.limits hub.calls p (pending_value_bytes value))) (λ _. v)
          (λ _.
            if_intro BoundAfter (ltb (max_u64 - (length p.pending + 2)) p.revision) (λ _. v)
              (λ _.
                other-HasBoundRuns _ _ (refl, refl, omega arith, refl)
                  (λ c u.
                    owned_by-update c u b.token (λ x. record x { active = suc x.active })
                      hub.bindings (λ x. (refl, refl)))
                  (put-HasBoundRuns hub b.client_id p _ fits refl v))))

pub finish_call-HasBoundRuns :
    (client : Bytes) (key : PendingKey) (call : PendingCall) (result : CallResult) (p : Partition)
    (hub : PendingHub)
    → find_key client hub.partitions ≡ some p
    → HasBoundRuns hub
    → HasBoundRuns (finish_call client key call result p hub)
unfolding finish_call close_call publish
finish_call-HasBoundRuns client key call result p hub found v =
    remove_released-HasBoundRuns call.binding _ (
      other-HasBoundRuns _ _ (refl, refl, omega arith, refl)
        (λ c u.
          owned_by-update c u call.binding (λ x. record x { active = x.active - 1 }) hub.bindings
            (λ x. (refl, refl)))
        (put-HasBoundRuns hub client p _
          (found-Fits hub.limits client hub.partitions (some p) v.few_clients found) refl v))

request_bound-HasBoundRuns :
    (hub : PendingHub) (value : Pending) (found : Option RunBinding)
    → HasBoundRuns hub
    → BoundAfter (request_bound hub value found)
unfolding request_bound
request_bound-HasBoundRuns hub value none s = s
request_bound-HasBoundRuns hub value (some b) s =
    if_intro (BoundAfter) (not b.accepting) (λ _. s)
      (λ _.
        open_in-HasBoundRuns hub value b _
          (found-Fits hub.limits b.client_id hub.partitions _ s.few_clients refl) s)

pub request-HasBoundRuns :
    (json_valid : Bytes → Bool) (ended : Option ContextError) (hub : PendingHub) (scope : Scope)
    (r : Request)
    → HasBoundRuns hub
    → BoundAfter (request json_valid ended hub scope r)
unfolding request
request-HasBoundRuns json_valid (some c) hub scope r s = s
request-HasBoundRuns json_valid none hub scope r s =
    let P = BoundAfter in
    if_intro P (not (valid_scope scope)) (λ _. s)
      (λ _.
        if_intro P (not (valid_request json_valid r)) (λ _. s)
          (λ _. if_intro P hub.closed (λ _. s) (λ _. request_bound-HasBoundRuns hub _ _ s)))

respond_call-HasBoundRuns :
    (client : Bytes) (key : PendingKey) (response : Response) (p : Partition)
    (found : Option PendingCall) (hub : PendingHub)
    → find_key client hub.partitions ≡ some p
    → find_call key p.pending ≡ found
    → HasBoundRuns hub
    → BoundAfter (respond_call client key response p found hub)
unfolding respond_call
respond_call-HasBoundRuns client key response p none hub place pending s = s
respond_call-HasBoundRuns client key response p (some call) hub place pending s =
    finish_call-HasBoundRuns client key call _ p hub place s

respond_in-HasBoundRuns :
    (client : Bytes) (key : PendingKey) (response : Response) (found : Option Partition)
    (hub : PendingHub)
    → find_key client hub.partitions ≡ found
    → HasBoundRuns hub
    → BoundAfter (respond_in client key response found hub)
unfolding respond_in
respond_in-HasBoundRuns client key response none hub found s = s
respond_in-HasBoundRuns client key response (some p) hub found s =
    respond_call-HasBoundRuns client key response p _ hub found refl s

respond_bound-HasBoundRuns :
    (client : Bytes) (key : PendingKey) (response : Response) (found : Option RunBinding)
    (hub : PendingHub)
    → HasBoundRuns hub
    → BoundAfter (respond_bound client key response found hub)
unfolding respond_bound
respond_bound-HasBoundRuns client key response none hub s = s
respond_bound-HasBoundRuns client key response (some b) hub s =
    if_intro (BoundAfter) (not (bytes_eq b.client_id client)) (λ _. s)
      (λ _. respond_in-HasBoundRuns client key response _ hub refl s)

pub respond-HasBoundRuns :
    (json_valid : Bytes → Bool) (hub : PendingHub) (client : Bytes) (scope : Scope)
    (response : Response)
    → HasBoundRuns hub
    → BoundAfter (respond json_valid hub client scope response)
unfolding respond
respond-HasBoundRuns json_valid hub client scope response s =
    let P = BoundAfter in
    if_intro P (not (bounded_token client)) (λ _. s)
      (λ _.
        if_intro P (not (valid_scope scope)) (λ _. s)
          (λ _.
            if_intro P (not (valid_response json_valid response)) (λ _. s)
              (λ _.
                if_intro P hub.closed (λ _. s)
                  (λ _. respond_bound-HasBoundRuns client _ response _ hub s))))

complete_call-HasBoundRuns :
    (client : Bytes) (key : PendingKey) (t : ℕ) (result : CallResult) (p : Partition)
    (found : Option PendingCall) (hub : PendingHub)
    → find_key client hub.partitions ≡ some p
    → find_call key p.pending ≡ found
    → HasBoundRuns hub
    → BoundAfter (complete_call client key t result p found hub)
unfolding complete_call
complete_call-HasBoundRuns client key t result p none hub place pending s = s
complete_call-HasBoundRuns client key t result p (some call) hub place pending s =
    if_intro (BoundAfter) (call.token == t)
      (λ _. finish_call-HasBoundRuns client key call result p hub place s) (λ _. s)

complete_in-HasBoundRuns :
    (client : Bytes) (key : PendingKey) (t : ℕ) (result : CallResult) (found : Option Partition)
    (hub : PendingHub)
    → find_key client hub.partitions ≡ found
    → HasBoundRuns hub
    → BoundAfter (complete_in client key t result found hub)
unfolding complete_in
complete_in-HasBoundRuns client key t result none hub found s = s
complete_in-HasBoundRuns client key t result (some p) hub found s =
    complete_call-HasBoundRuns client key t result p _ hub found refl s

pub complete_request-HasBoundRuns :
    (call : PendingCall) (result : CallResult) (hub : PendingHub)
    → HasBoundRuns hub
    → BoundAfter (complete_request call result hub)
unfolding complete_request
complete_request-HasBoundRuns call result hub s =
    elim (find_binding call.binding hub.bindings)
      as (λ o. BoundAfter (elim o as (λ _. PendingHub × Bool) [
        | none ↦ (hub, false)
        | some b ↦
            complete_in b.client_id (key_of call.value) call.token result
              (find_key b.client_id hub.partitions) hub
      ])) [
        | none ↦ s
        | some b ↦ complete_in-HasBoundRuns b.client_id _ call.token result _ hub refl s
      ]
