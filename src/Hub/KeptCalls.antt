-- ===== src/Hub/KeptCalls.antt =====
-- daemon/pending.go: requests and their ends, for a property of partitions that
-- every change keeps.
use spice_agent.Base.{
  ℕ, ◌≡◌, refl, Bool, false, not, if_intro, ◌==◌, Option, none, some, Bytes, bytes_eq, ContextError,
  find_key,
}
use spice_agent.Session.Types.{bounded_token}
use spice_agent.Interaction.{Scope, Request, Response, valid_scope, valid_request, valid_response}
use spice_agent.Hub.Types.{Pending, PendingKey, PendingCall, CallResult, RunBinding, key_of}
use spice_agent.Hub.Store.{Partition, PendingHub, find_call, find_binding}
use spice_agent.Hub.Operations.{
  request_bound, request, finish_call, respond_call, respond_in, respond_bound, respond,
  complete_call, complete_in, complete_request,
}
use spice_agent.Hub.Sound.{IsSound}
use spice_agent.Hub.Partitions.{
  IsKept, Holds, HoldsAfter, found_own, put_key-Own, remove_released-Holds, open_in-Holds,
}

module _ (Own : Partition → Type 0) (kept : IsKept Own) where
  request_bound-Holds :
      (hub : PendingHub) (value : Pending) (found : Option RunBinding)
      → IsSound hub
      → Holds Own kept hub
      → HoldsAfter Own kept (request_bound hub value found)
  unfolding request_bound
  request_bound-Holds hub value none sound s = s
  request_bound-Holds hub value (some b) sound s =
      if_intro (HoldsAfter Own kept) (not b.accepting) (λ _. s)
        (λ _. open_in-Holds Own kept hub value b _ refl sound s)

  pub request-Holds :
      (json_valid : Bytes → Bool) (ended : Option ContextError) (hub : PendingHub) (scope : Scope)
      (r : Request)
      → IsSound hub
      → Holds Own kept hub
      → HoldsAfter Own kept (request json_valid ended hub scope r)
  unfolding request
  request-Holds json_valid (some c) hub scope r sound s = s
  request-Holds json_valid none hub scope r sound s =
      let P = HoldsAfter Own kept in
      if_intro P (not (valid_scope scope)) (λ _. s)
        (λ _.
          if_intro P (not (valid_request json_valid r)) (λ _. s)
            (λ _. if_intro P hub.closed (λ _. s) (λ _. request_bound-Holds hub _ _ sound s)))

  pub finish_call-Holds :
      (client : Bytes) (key : PendingKey) (call : PendingCall) (result : CallResult) (p : Partition)
      (hub : PendingHub)
      → find_key client hub.partitions ≡ some p
      → find_call key p.pending ≡ some call
      → Holds Own kept hub
      → Holds Own kept (finish_call client key call result p hub)
  unfolding finish_call
  finish_call-Holds client key call result p hub found pending s =
      remove_released-Holds Own kept call.binding _ (
        put_key-Own Own kept client _ hub.partitions s (
          kept.closed_call hub.limits key call hub.calls hub.usage p pending
            (found_own Own kept client p hub s found)))

  respond_call-Holds :
      (client : Bytes) (key : PendingKey) (response : Response) (p : Partition)
      (found : Option PendingCall) (hub : PendingHub)
      → find_key client hub.partitions ≡ some p
      → find_call key p.pending ≡ found
      → Holds Own kept hub
      → HoldsAfter Own kept (respond_call client key response p found hub)
  unfolding respond_call
  respond_call-Holds client key response p none hub place pending s = s
  respond_call-Holds client key response p (some call) hub place pending s =
      finish_call-Holds client key call _ p hub place pending s

  respond_in-Holds :
      (client : Bytes) (key : PendingKey) (response : Response) (found : Option Partition)
      (hub : PendingHub)
      → find_key client hub.partitions ≡ found
      → Holds Own kept hub
      → HoldsAfter Own kept (respond_in client key response found hub)
  unfolding respond_in
  respond_in-Holds client key response none hub found s = s
  respond_in-Holds client key response (some p) hub found s =
      respond_call-Holds client key response p _ hub found refl s

  respond_bound-Holds :
      (client : Bytes) (key : PendingKey) (response : Response) (found : Option RunBinding)
      (hub : PendingHub)
      → Holds Own kept hub
      → HoldsAfter Own kept (respond_bound client key response found hub)
  unfolding respond_bound
  respond_bound-Holds client key response none hub s = s
  respond_bound-Holds client key response (some b) hub s =
      if_intro (HoldsAfter Own kept) (not (bytes_eq b.client_id client)) (λ _. s)
        (λ _. respond_in-Holds client key response _ hub refl s)

  pub respond-Holds :
      (json_valid : Bytes → Bool) (hub : PendingHub) (client : Bytes) (scope : Scope)
      (response : Response)
      → Holds Own kept hub
      → HoldsAfter Own kept (respond json_valid hub client scope response)
  unfolding respond
  respond-Holds json_valid hub client scope response s =
      let P = HoldsAfter Own kept in
      if_intro P (not (bounded_token client)) (λ _. s)
        (λ _.
          if_intro P (not (valid_scope scope)) (λ _. s)
            (λ _.
              if_intro P (not (valid_response json_valid response)) (λ _. s)
                (λ _.
                  if_intro P hub.closed (λ _. s)
                    (λ _. respond_bound-Holds client _ response _ hub s))))

  complete_call-Holds :
      (client : Bytes) (key : PendingKey) (t : ℕ) (result : CallResult) (p : Partition)
      (found : Option PendingCall) (hub : PendingHub)
      → find_key client hub.partitions ≡ some p
      → find_call key p.pending ≡ found
      → Holds Own kept hub
      → HoldsAfter Own kept (complete_call client key t result p found hub)
  unfolding complete_call
  complete_call-Holds client key t result p none hub place pending s = s
  complete_call-Holds client key t result p (some call) hub place pending s =
      if_intro (HoldsAfter Own kept) (call.token == t)
        (λ _. finish_call-Holds client key call result p hub place pending s) (λ _. s)

  complete_in-Holds :
      (client : Bytes) (key : PendingKey) (t : ℕ) (result : CallResult) (found : Option Partition)
      (hub : PendingHub)
      → find_key client hub.partitions ≡ found
      → Holds Own kept hub
      → HoldsAfter Own kept (complete_in client key t result found hub)
  unfolding complete_in
  complete_in-Holds client key t result none hub found s = s
  complete_in-Holds client key t result (some p) hub found s =
      complete_call-Holds client key t result p _ hub found refl s

  pub complete_request-Holds :
      (call : PendingCall) (result : CallResult) (hub : PendingHub)
      → Holds Own kept hub
      → HoldsAfter Own kept (complete_request call result hub)
  unfolding complete_request
  complete_request-Holds call result hub s =
      elim (find_binding call.binding hub.bindings)
        as (λ o. HoldsAfter Own kept (elim o as (λ _. PendingHub × Bool) [
          | none ↦ (hub, false)
          | some b ↦
              complete_in b.client_id (key_of call.value) call.token result
                (find_key b.client_id hub.partitions) hub
        ])) [ none ↦ s | some b ↦ complete_in-Holds b.client_id _ call.token result _ hub refl s ]
