-- ===== src/Hub/RunReached.antt =====
-- daemon/pending.go: in every hub that can be reached the bound runs of the clients are counted.
use spice_agent.Base.{
  Result, ok, err, subst, sum_over, arith, ◌≡◌, refl, Bool, if_intro, List, [], ◌∷◌, Option, none,
  some, Bytes, find_key,
}
use spice_agent.Hub.Types.{
  LimitLabel, PendingLimits, PendingKey, PendingCall, RunBinding, hub_closed, failed,
}
use spice_agent.Hub.Store.{Partition, PendingHub, new_pending_hub, fresh_hub}
use spice_agent.Hub.Observing.{detach, stop_all, deliver_active, in_partition}
use spice_agent.Hub.Closing.{
  close_call_in, close_one, close_calls, close_clients, release_all, stop_clients, shut, close_hub,
  sort_calls,
}
use spice_agent.Hub.SoundObservers.{stopping_stage}
use spice_agent.Hub.Reachable.{
  Step, Reaches, binds, releases, requests, responds, completes, subscribes, detaches, delivers,
  winds_down, fences, closes, starts, follows,
}
use spice_agent.Hub.Limits.{validate_pending_limits}
use spice_agent.Hub.Sound.{IsSound}
use spice_agent.Hub.Bounds.{Reaches-new_pending_hub}
use spice_agent.Hub.Runs.{HasBoundRuns, run_count}
use spice_agent.Hub.RunCalls.{bind_run-HasBoundRuns}
use spice_agent.Hub.RunDrops.{remove_released-HasBoundRuns, release_run-HasBoundRuns}
use spice_agent.Hub.RunEnds.{
  request-HasBoundRuns, finish_call-HasBoundRuns, respond-HasBoundRuns,
  complete_request-HasBoundRuns,
}
use spice_agent.Hub.RunObservers.{
  subscribe_pending-HasBoundRuns, in_partition-HasBoundRuns, detach-KeepsBound,
  deliver_active-KeepsBound, stop_all-HasBoundRuns, shut-HasBoundRuns, fence_observers-HasBoundRuns,
}

close_call_in-HasBoundRuns :
    (client : Bytes) (key : PendingKey) (p : Partition) (found : Option PendingCall)
    (hub : PendingHub)
    → find_key client hub.partitions ≡ some p
    → HasBoundRuns hub
    → HasBoundRuns (close_call_in client key p found hub)
unfolding close_call_in
close_call_in-HasBoundRuns client key p none hub place s = s
close_call_in-HasBoundRuns client key p (some call) hub place s =
    finish_call-HasBoundRuns client key call (failed hub_closed) p hub place s

close_one-HasBoundRuns :
    (client : Bytes) (key : PendingKey) (found : Option Partition) (hub : PendingHub)
    → find_key client hub.partitions ≡ found
    → HasBoundRuns hub
    → HasBoundRuns (close_one client key found hub)
unfolding close_one
close_one-HasBoundRuns client key none hub found s = s
close_one-HasBoundRuns client key (some p) hub found s =
    close_call_in-HasBoundRuns client key p _ hub found s

close_calls-HasBoundRuns :
    (client : Bytes) (cs : List (PendingKey × PendingCall)) (hub : PendingHub)
    → HasBoundRuns hub
    → HasBoundRuns (close_calls client cs hub)
unfolding close_calls
close_calls-HasBoundRuns client [] hub s = s
close_calls-HasBoundRuns client ((key, call) ∷ cs) hub s =
    close_calls-HasBoundRuns client cs (close_one client key (find_key client hub.partitions) hub)
      (close_one-HasBoundRuns client key _ hub refl s)

close_clients-HasBoundRuns :
    (ps : List (Bytes × Partition)) (hub : PendingHub)
    → HasBoundRuns hub
    → HasBoundRuns (close_clients ps hub)
unfolding close_clients
close_clients-HasBoundRuns [] hub s = s
close_clients-HasBoundRuns ((client, p) ∷ ps) hub s =
    close_clients-HasBoundRuns ps (close_calls client (sort_calls p.pending) hub)
      (close_calls-HasBoundRuns client (sort_calls p.pending) hub s)

release_all-HasBoundRuns :
    (bs : List RunBinding) (hub : PendingHub) → HasBoundRuns hub → HasBoundRuns (release_all bs hub)
unfolding release_all
release_all-HasBoundRuns [] hub s = s
release_all-HasBoundRuns (b ∷ bs) hub s =
    release_all-HasBoundRuns bs _ (remove_released-HasBoundRuns b.token hub s)

stop_clients-HasBoundRuns :
    (ps : List (Bytes × Partition)) (hub : PendingHub)
    → HasBoundRuns hub
    → HasBoundRuns (stop_clients ps hub)
unfolding stop_clients
stop_clients-HasBoundRuns [] hub s = s
stop_clients-HasBoundRuns ((client, p) ∷ ps) hub s =
    stop_clients-HasBoundRuns ps (in_partition (stop_all hub.limits hub_closed) client hub)
      (stop_all-HasBoundRuns hub_closed client hub s)

close_hub-HasBoundRuns : (hub : PendingHub) → HasBoundRuns hub → HasBoundRuns (close_hub hub)
unfolding close_hub
close_hub-HasBoundRuns hub s =
    let finished = close_clients hub.partitions (shut hub) in
    let released = release_all hub.bindings finished in
    if_intro (HasBoundRuns) hub.closed (λ _. s)
      (λ _. stop_clients-HasBoundRuns released.partitions released (
        release_all-HasBoundRuns hub.bindings finished
          (close_clients-HasBoundRuns hub.partitions (shut hub) (shut-HasBoundRuns hub s))))

Step-HasBoundRuns :
    (json_valid : Bytes → Bool) (hub next : PendingHub)
    → Step json_valid hub next
    → HasBoundRuns hub
    → HasBoundRuns next
Step-HasBoundRuns json_valid hub _ (binds client scope) s = bind_run-HasBoundRuns hub client scope s
Step-HasBoundRuns json_valid hub _ (releases t) s = release_run-HasBoundRuns t hub s
Step-HasBoundRuns json_valid hub _ (requests ended scope r) s =
    request-HasBoundRuns json_valid ended hub scope r s
Step-HasBoundRuns json_valid hub _ (responds client scope response) s =
    respond-HasBoundRuns json_valid hub client scope response s
Step-HasBoundRuns json_valid hub _ (completes call result) s =
    complete_request-HasBoundRuns call result hub s
Step-HasBoundRuns json_valid hub _ (subscribes ended client) s =
    subscribe_pending-HasBoundRuns ended hub client s
Step-HasBoundRuns json_valid hub _ (detaches e id client) s =
    in_partition-HasBoundRuns (detach hub.limits e id) client hub
      (detach-KeepsBound hub.limits e id) s
Step-HasBoundRuns json_valid hub _ (delivers ready id client) s =
    in_partition-HasBoundRuns (deliver_active ready id) client hub
      (deliver_active-KeepsBound ready id) s
Step-HasBoundRuns json_valid hub _ (winds_down ready id client) s =
    in_partition-HasBoundRuns (stopping_stage ready id) client hub (λ u p. refl) s
Step-HasBoundRuns json_valid hub _ (fences client) s = fence_observers-HasBoundRuns hub client s
Step-HasBoundRuns json_valid hub _ closes s = close_hub-HasBoundRuns hub s

Reaches-runs :
    (json_valid : Bytes → Bool) (start hub : PendingHub)
    → Reaches json_valid start hub
    → HasBoundRuns start
    → HasBoundRuns hub
Reaches-runs json_valid start _ starts s = s
Reaches-runs json_valid start next (follows {hub = hub} before step) s =
    Step-HasBoundRuns json_valid hub next step (Reaches-runs json_valid start hub before s)

-- A new hub has no runs.
new_pending_hub-HasBoundRuns :
    (limits : PendingLimits) (start : PendingHub)
    → new_pending_hub limits ≡ ok start
    → HasBoundRuns start
unfolding new_pending_hub run_count sum_over find_key
new_pending_hub-HasBoundRuns limits start =
    elim (validate_pending_limits limits)
      as (λ r.
        (elim r as (λ _. Result LimitLabel PendingHub) [
          | err e ↦ err e
          | ok u ↦ ok (fresh_hub limits)
        ])
          ≡ ok start
        → HasBoundRuns start) [
          | err e ↦ λ h. absurd (grind arith)
          | ok u ↦ λ h.
              let same : fresh_hub limits ≡ start = grind arith in
              subst HasBoundRuns same (record {
                counted = λ client. refl;
                few_own = λ client. omega arith;
                few_runs = omega arith;
                few_clients = omega arith;
                tokens = tt;
              })
        ]

-- In every hub that calls and goroutines reach from a new one, in any order: the hub's counters of
-- observers, of queued and reserved entries and bytes, and of pending calls and their bytes are the
-- sums of what its clients have; each client's counters of them are what its observers' queues, the
-- items in flight and its pending calls amount to; each client's bound runs are the runs of the map
-- whose binding is the client's; and the observers, entries, bytes, calls, runs and clients are within
-- their limits, of the hub and of each client.
pub Reaches-HasBoundRuns :
    (json_valid : Bytes → Bool) (limits : PendingLimits) (start hub : PendingHub)
    → new_pending_hub limits ≡ ok start
    → Reaches json_valid start hub
    → IsSound hub × HasBoundRuns hub
Reaches-HasBoundRuns json_valid limits start hub made reached = (
  Reaches-new_pending_hub json_valid limits start hub made reached,
  Reaches-runs json_valid start hub reached (new_pending_hub-HasBoundRuns limits start made),
)
