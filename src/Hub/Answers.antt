-- ===== src/Hub/Answers.antt =====
-- daemon/pending.go, Respond: an answer ends the call that it is for, and that call alone.
use spice_agent.Base.{
  ℕ, ◌≡◌, ◌≢◌, refl, sym, ap, subst, ◌∙◌, Bool, false, not, ◌||◌, ◌==◌, if_intro, List, Option,
  none, some, arith, Bytes, bytes_eq, bytes_eq_iff, bytes_eq_refl, ok, find_key, put_key,
  find-put_key_if,
}
use spice_agent.Session.Types.{bounded_token}
use spice_agent.Interaction.{Scope, Response, valid_scope, valid_response}
use spice_agent.Hub.Types.{
  PendingLimits, HubError, PendingKey, PendingCall, CallResult, responded, RunBinding,
}
use spice_agent.Hub.Store.{
  Partition, PendingHub, new_pending_hub, find_call, delete_call, find_binding, same_key,
  close_call, publish,
}
use spice_agent.Hub.Operations.{
  drop_run, remove_if_released, remove_released, is_token, finish_call, respond_call, respond_in,
  respond_bound, respond, binding_of,
}
use spice_agent.Hub.Replay.{IsKeyed, find-delete_call, same_key_refl}
use spice_agent.Hub.Reachable.{Reaches}
use spice_agent.Hub.Observers.{Reaches-IsWatched}

-- The call that an accepted response ended.
pub record IsAnswered (hub : PendingHub) (client : Bytes) (key : PendingKey) (r : Response)
    (after : PendingHub) : Type 0 where
  pub partition : Partition
  pub call : PendingCall
  pub found : find_key client hub.partitions ≡ some partition
  pub pending : find_call key partition.pending ≡ some call
  pub ended : after ≡ finish_call client key call (responded r) partition hub

abbrev pub key_for : Scope → Response → PendingKey
key_for scope r = record { run_id = scope.run_id; interaction_id = r.id }

-- What is claimed of the outcome of a response, if it is accepted.
abbrev Accepted : PendingHub → Bytes → PendingKey → Response → PendingHub × Option HubError → Type 0
Accepted hub client key r out = out.1 ≡ none → IsAnswered hub client key r out.0

refused :
    (hub : PendingHub) (client : Bytes) (key : PendingKey) (r : Response) (e : HubError)
    → Accepted hub client key r (hub, some e)
refused hub client key r e h = absurd (grind arith)

respond_call-Accepted :
    (client : Bytes) (key : PendingKey) (r : Response) (p : Partition) (o : Option PendingCall)
    (hub : PendingHub)
    → find_key client hub.partitions ≡ some p
    → find_call key p.pending ≡ o
    → Accepted hub client key r (respond_call client key r p o hub)
unfolding respond_call
respond_call-Accepted client key r p none hub found pending = refused hub client key r _
respond_call-Accepted client key r p (some call) hub found pending =
    λ _. record { partition = p; call = call; found = found; pending = pending; ended = refl }

respond_in-Accepted :
    (client : Bytes) (key : PendingKey) (r : Response) (o : Option Partition) (hub : PendingHub)
    → find_key client hub.partitions ≡ o
    → Accepted hub client key r (respond_in client key r o hub)
unfolding respond_in
respond_in-Accepted client key r none hub found = refused hub client key r _
respond_in-Accepted client key r (some p) hub found =
    respond_call-Accepted client key r p _ hub found refl

respond_bound-Accepted :
    (client : Bytes) (key : PendingKey) (r : Response) (o : Option RunBinding) (hub : PendingHub)
    → Accepted hub client key r (respond_bound client key r o hub)
unfolding respond_bound
respond_bound-Accepted client key r none hub = refused hub client key r _
respond_bound-Accepted client key r (some b) hub =
    if_intro (Accepted hub client key r) (not (bytes_eq b.client_id client))
      (λ _. refused hub client key r _) (λ _. respond_in-Accepted client key r _ hub refl)

pub respond-IsAnswered :
    (json_valid : Bytes → Bool) (hub : PendingHub) (client : Bytes) (scope : Scope) (r : Response)
    → (respond json_valid hub client scope r).1 ≡ none
    → IsAnswered hub client (key_for scope r) r (respond json_valid hub client scope r).0
unfolding respond
respond-IsAnswered json_valid hub client scope r =
    let P = Accepted hub client (key_for scope r) r in
    let no = refused hub client (key_for scope r) r in
    if_intro P (not (bounded_token client)) (λ _. no _)
      (λ _.
        if_intro P (not (valid_scope scope)) (λ _. no _)
          (λ _.
            if_intro P (not (valid_response json_valid r)) (λ _. no _)
              (λ _.
                if_intro P hub.closed (λ _. no _)
                  (λ _.
                    respond_bound-Accepted client (key_for scope r) r (binding_of hub scope.run_id)
                      hub))))

-- No call of the client is pending under the key.
abbrev pub IsAbsent : Bytes → PendingKey → List (Bytes × Partition) → Type 0
IsAbsent client key ps =
    (q : Partition) → find_key client ps ≡ some q → find_call key q.pending ≡ none

-- A partition that is replaced by one without the call.
put_key-IsAbsent :
    (client : Bytes) (key : PendingKey) (k : Bytes) (p : Partition) (ps : List (Bytes × Partition))
    → (k ≡ client → find_call key p.pending ≡ none)
    → (bytes_eq k client ≡ false → IsAbsent client key ps)
    → IsAbsent client key (put_key k p ps)
put_key-IsAbsent client key k p ps new old q h =
    if_intro (λ o. o ≡ some q → find_call key q.pending ≡ none) (bytes_eq k client)
      (λ is e.
        let same : p ≡ q = grind arith in
        ap (λ x. find_call key x.pending) (sym same) ∙ new ((bytes_eq_iff k client).0 is))
      (λ other e. old other q e) (sym (find-put_key_if client k p ps) ∙ h)

drop_run-IsAbsent :
    (o : Option Partition) (b : RunBinding) (hub : PendingHub) (client : Bytes) (key : PendingKey)
    → find_key b.client_id hub.partitions ≡ o
    → IsAbsent client key hub.partitions
    → IsAbsent client key (drop_run o b hub).partitions
unfolding drop_run
drop_run-IsAbsent none b hub client key found absent = absent
drop_run-IsAbsent (some p) b hub client key found absent =
    put_key-IsAbsent client key b.client_id _ hub.partitions
      (λ who. absent p (subst (λ k. find_key k hub.partitions ≡ some p) who found)) (λ _. absent)

remove_if_released-IsAbsent :
    (o : Option RunBinding) (hub : PendingHub) (client : Bytes) (key : PendingKey)
    → IsAbsent client key hub.partitions
    → IsAbsent client key (remove_if_released o hub).partitions
unfolding remove_if_released
remove_if_released-IsAbsent none hub client key absent = absent
remove_if_released-IsAbsent (some b) hub client key absent =
    if_intro (λ (h : PendingHub). IsAbsent client key h.partitions)
      (b.accepting || not (b.active == 0) || not (is_token b.token (find_key b.run_id hub.runs)))
      (λ _. absent) (λ _. drop_run-IsAbsent _ b hub client key refl absent)

remove_released-IsAbsent :
    (t : ℕ) (hub : PendingHub) (client : Bytes) (key : PendingKey)
    → IsAbsent client key hub.partitions
    → IsAbsent client key (remove_released t hub).partitions
unfolding remove_released
remove_released-IsAbsent t hub client key absent =
    remove_if_released-IsAbsent (find_binding t hub.bindings) hub client key absent

deleted :
    (key : PendingKey) (cs : List (PendingKey × PendingCall))
    → IsKeyed cs
    → find_call key (delete_call key cs) ≡ none
deleted key cs keyed =
    find-delete_call key key cs keyed
    ∙ if_intro {A = Option PendingCall} (λ o. o ≡ none) (same_key key key) (λ _. refl)
        (λ other. absurd (grind (arith, same_key_refl key)))

finish_call-IsAbsent :
    (client : Bytes) (key : PendingKey) (call : PendingCall) (result : CallResult) (p : Partition)
    (hub : PendingHub)
    → IsKeyed p.pending
    → IsAbsent client key (finish_call client key call result p hub).partitions
unfolding finish_call close_call publish
finish_call-IsAbsent client key call result p hub keyed =
    remove_released-IsAbsent call.binding _ client key (
      put_key-IsAbsent client key client _ hub.partitions (λ _. deleted key p.pending keyed)
        (λ other. absurd (grind (arith, bytes_eq_refl client))))

-- In every hub that can be reached, a response that is accepted ends the call of its client that is
-- pending under the response's key: after it no call is pending there, and a second response to the same
-- interaction is refused.
pub respond-respond :
    (json_valid : Bytes → Bool) (limits : PendingLimits) (start hub : PendingHub) (client : Bytes)
    (scope : Scope) (r again : Response)
    → new_pending_hub limits ≡ ok start
    → Reaches json_valid start hub
    → (respond json_valid hub client scope r).1 ≡ none
    → again.id ≡ r.id
    → IsAbsent client (key_for scope r) (respond json_valid hub client scope r).0.partitions
      × ((respond json_valid (respond json_valid hub client scope r).0 client scope again).1 ≢ none)
respond-respond json_valid limits start hub client scope r again made reached accepted same =
    let key = key_for scope r in
    let after = (respond json_valid hub client scope r).0 in
    let a = respond-IsAnswered json_valid hub client scope r accepted in
    let watched =
      Reaches-IsWatched json_valid limits start hub client a.partition made reached a.found in
    let absent : IsAbsent client key after.partitions =
      subst (λ (h : PendingHub). IsAbsent client key h.partitions) (sym a.ended)
        (finish_call-IsAbsent client key a.call (responded r) a.partition hub watched.keyed) in
    (
      absent,
      λ second.
          let b = respond-IsAnswered json_valid after client scope again second in
          let still : find_call key b.partition.pending ≡ some b.call =
            subst
              (λ i.
                find_call (record { run_id = scope.run_id; interaction_id = i }) b.partition.pending
                ≡ some b.call)
              same b.pending in
          absurd (grind (arith, absent b.partition b.found)),
    )
