-- ===== src/Hub/RunObservers.antt =====
-- daemon/pending.go, Subscribe, the deliveries and FenceObservers: observers leave the bound runs counted.
use spice_agent.Base.{
  ℕ, arith, ◌≡◌, refl, not, ◌||◌, if_intro, length, leb, ◌==◌, List, [], ◌∷◌, Option, none, some,
  Bytes, ContextError, find_key, max_u64,
}
use spice_agent.Session.Types.{bounded_token}
use spice_agent.Hub.Types.{PendingLimits, HubError, observer_fenced}
use spice_agent.Hub.Watchers.{Usage, Watcher, WatcherReady, over_reserved}
use spice_agent.Hub.Store.{Partition, PendingHub}
use spice_agent.Hub.Observing.{
  Found, finish_found, deliver_found, find_watcher, finish_watchers, subscribe_in,
  subscribe_pending, detach, stop_all, deliver_active, in_found, in_partition, fence_observers,
}
use spice_agent.Hub.Closing.{shut}
use spice_agent.Hub.Runs.{HasBoundRuns, BoundAfter, owned_by-shut}
use spice_agent.Hub.RunCalls.{
  Fits, found-Fits, partition_for-Fits, put-HasBoundRuns, other-HasBoundRuns,
}

subscribe_in-HasBoundRuns :
    (hub : PendingHub) (client : Bytes) (found : Option Partition)
    → Fits hub.limits client hub.partitions found
    → HasBoundRuns hub
    → BoundAfter (subscribe_in hub client found)
unfolding subscribe_in
subscribe_in-HasBoundRuns hub client none fits s = s
subscribe_in-HasBoundRuns hub client (some p) fits s =
    let P = BoundAfter in
    let l = hub.limits in
    let stays = put-HasBoundRuns hub client p p fits refl s in
    if_intro P
      (leb l.observers hub.usage.observers || leb l.observers_per_client (length p.watchers))
      (λ _. stays)
      (λ _.
        if_intro P (p.next_watcher == max_u64) (λ _. stays)
          (λ _.
            if_intro P (over_reserved l hub.usage p.usage) (λ _. stays)
              (λ _.
                other-HasBoundRuns _ _ (refl, refl, omega arith, refl) (λ c t. refl)
                  (put-HasBoundRuns hub client p _ fits refl s))))

pub subscribe_pending-HasBoundRuns :
    (ended : Option ContextError) (hub : PendingHub) (client : Bytes)
    → HasBoundRuns hub
    → BoundAfter (subscribe_pending ended hub client)
unfolding subscribe_pending
subscribe_pending-HasBoundRuns (some c) hub client s = s
subscribe_pending-HasBoundRuns none hub client s =
    let P = BoundAfter in
    if_intro P (not (bounded_token client)) (λ _. s)
      (λ _.
        if_intro P hub.closed (λ _. s)
          (λ _.
            subscribe_in-HasBoundRuns hub client _
              (partition_for-Fits hub.limits client hub.partitions s.few_clients) s))

-- A change of a client that leaves its bound runs.
abbrev pub KeepsBound : (Usage × Partition → Usage × Partition) → Type 0
KeepsBound f = (u : Usage) (p : Partition) → (f (u, p)).1.bound_runs ≡ p.bound_runs

in_found-HasBoundRuns :
    (f : Usage × Partition → Usage × Partition) (client : Bytes) (found : Option Partition)
    (hub : PendingHub)
    → KeepsBound f
    → find_key client hub.partitions ≡ found
    → HasBoundRuns hub
    → HasBoundRuns (in_found f client found hub)
unfolding in_found
in_found-HasBoundRuns f client none hub keeps found s = s
in_found-HasBoundRuns f client (some p) hub keeps found s =
    other-HasBoundRuns _ _ (refl, refl, omega arith, refl) (λ c t. refl)
      (put-HasBoundRuns hub client p _
        (found-Fits hub.limits client hub.partitions (some p) s.few_clients found)
        (keeps hub.usage p) s)

pub in_partition-HasBoundRuns :
    (f : Usage × Partition → Usage × Partition) (client : Bytes) (hub : PendingHub)
    → KeepsBound f
    → HasBoundRuns hub
    → HasBoundRuns (in_partition f client hub)
unfolding in_partition
in_partition-HasBoundRuns f client hub keeps s = in_found-HasBoundRuns f client _ hub keeps refl s

stop_all-KeepsBound : (l : PendingLimits) (e : HubError) → KeepsBound (stop_all l e)
unfolding finish_watchers
stop_all-KeepsBound l e u p = every p.watchers u p
  where
    every :
        (ws : List Watcher) (u : Usage) (p : Partition)
        → (finish_watchers l e ws (u, p)).1.bound_runs ≡ p.bound_runs
    every [] u p = refl
    every (w ∷ ws) u p = every ws _ _

pub detach-KeepsBound : (l : PendingLimits) (e : HubError) (id : ℕ) → KeepsBound (detach l e id)
unfolding detach finish_found
detach-KeepsBound l e id u p = by (find_watcher id p.watchers)
  where
    by : (f : Option Found) → (finish_found l e f (u, p)).1.bound_runs ≡ p.bound_runs
    by none = refl
    by (some f) = refl

pub deliver_active-KeepsBound :
    (ready : WatcherReady) (id : ℕ) → KeepsBound (deliver_active ready id)
unfolding deliver_active deliver_found
deliver_active-KeepsBound ready id u p = by (find_watcher id p.watchers)
  where
    by : (f : Option Found) → (deliver_found ready f (u, p)).1.bound_runs ≡ p.bound_runs
    by none = refl
    by (some f) = refl

pub stop_all-HasBoundRuns :
    (e : HubError) (client : Bytes) (hub : PendingHub)
    → HasBoundRuns hub
    → HasBoundRuns (in_partition (stop_all hub.limits e) client hub)
stop_all-HasBoundRuns e client hub s =
    in_partition-HasBoundRuns (stop_all hub.limits e) client hub (stop_all-KeepsBound hub.limits e)
      s

pub shut-HasBoundRuns : (hub : PendingHub) → HasBoundRuns hub → HasBoundRuns (shut hub)
shut-HasBoundRuns hub s =
    other-HasBoundRuns hub _ (refl, refl, omega arith, refl) (λ c t. owned_by-shut c t hub.bindings)
      s

pub fence_observers-HasBoundRuns :
    (hub : PendingHub) (client : Bytes) → HasBoundRuns hub → BoundAfter (fence_observers hub client)
unfolding fence_observers
fence_observers-HasBoundRuns hub client s =
    let P = BoundAfter in
    if_intro P (not (bounded_token client)) (λ _. s)
      (λ _.
        if_intro P hub.closed (λ _. s) (λ _. stop_all-HasBoundRuns observer_fenced client hub s))
