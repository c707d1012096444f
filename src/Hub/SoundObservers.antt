-- ===== src/Hub/SoundObservers.antt =====
-- daemon/pending.go: subscriptions, deliveries, fences and the close of the hub keep its counters true.
use spice_agent.Base.{
  ℕ, ◌≡◌, refl, inl, not, ◌||◌, if_intro, length, leb, ◌==◌, List, [], ◌∷◌, Option, none, some,
  arith, Bytes, ContextError, find_key, put_key, max_u64,
}
use spice_agent.Session.Types.{bounded_token}
use spice_agent.Hub.Types.{
  PendingLimits, HubError, PendingKey, PendingCall, RunBinding, observer_fenced, hub_closed, failed,
}
use spice_agent.Hub.Watchers.{Usage, over_reserved, WatcherReady}
use spice_agent.Hub.Store.{Partition, CallCounts, PendingHub, find_call}
use spice_agent.Hub.Observing.{
  subscribe_in, subscribe_pending, detach, stop_all, deliver_active, deliver_stopping, in_found,
  in_partition, fence_observers,
}
use spice_agent.Hub.Closing.{
  close_call_in, close_one, close_calls, close_clients, release_all, stop_clients, shut, close_hub,
  sort_calls,
}
use spice_agent.Hub.Accounts.{IsShare}
use spice_agent.Hub.Shares.{rest_of, other_calls, share, unshare}
use spice_agent.Hub.ShareWatchers.{
  with_watchers, reserve-IsShare, find_watcher-IsSplit, finish_found-IsShare,
  finish_watchers-IsShare,
}
use spice_agent.Hub.ShareDeliveries.{deliver_found-IsShare}
use spice_agent.Hub.Sound.{
  IsSound, SoundAfter, Places, partition_for-Places, bound-IsAccounted, remove_released-IsSound,
}
use spice_agent.Hub.SoundCalls.{finish_call-IsSound}

subscribe_in-IsSound :
    (hub : PendingHub) (client : Bytes) (found : Option Partition)
    → Places client hub.partitions found
    → IsSound hub
    → IsSound (subscribe_in hub client found).0
unfolding subscribe_in
subscribe_in-IsSound hub client none place s = s
subscribe_in-IsSound hub client (some p) place s =
    let l = hub.limits in
    let before = share l hub.usage hub.calls client p hub.partitions s.accounted place in
    let kept : IsSound (record hub { partitions = put_key client p hub.partitions }) = record {
      funded = s.funded;
      accounted =
          bound-IsAccounted l hub.usage hub.calls client p p.bound_runs hub.partitions place
            s.accounted;
    } in
    if_intro SoundAfter
      (leb l.observers hub.usage.observers || leb l.observers_per_client (length p.watchers))
      (λ _. kept)
      (λ few.
        if_intro SoundAfter (p.next_watcher == max_u64) (λ _. kept)
          (λ _.
            if_intro SoundAfter (over_reserved l hub.usage p.usage) (λ _. kept)
              (λ room. record {
                funded = s.funded;
                accounted =
                    unshare l hub.usage _ hub.calls hub.calls client p _ hub.partitions s.accounted
                      place
                      (reserve-IsShare l (rest_of hub.usage p.usage) (other_calls hub.calls p)
                        hub.usage hub.calls p s.funded (ground arith) (ground arith) room before);
              })))

pub subscribe_pending-IsSound :
    (ended : Option ContextError) (hub : PendingHub) (client : Bytes)
    → IsSound hub
    → IsSound (subscribe_pending ended hub client).0
unfolding subscribe_pending
subscribe_pending-IsSound (some c) hub client s = s
subscribe_pending-IsSound none hub client s =
    if_intro SoundAfter (not (bounded_token client)) (λ _. s)
      (λ _.
        if_intro SoundAfter hub.closed (λ _. s)
          (λ _.
            subscribe_in-IsSound hub client _
              (partition_for-Places hub.limits client hub.partitions) s))

-- A change of one client keeps the hub sound if it keeps every share.
abbrev pub KeepsShares : PendingLimits → (Usage × Partition → Usage × Partition) → Type 0
KeepsShares l f =
    (rest : Usage) (other : CallCounts) (u : Usage) (c : CallCounts) (p : Partition)
    → IsShare l rest other u c p
    → IsShare l rest other (f (u, p)).0 c (f (u, p)).1

in_found-IsSound :
    (f : Usage × Partition → Usage × Partition) (client : Bytes) (found : Option Partition)
    (hub : PendingHub)
    → KeepsShares hub.limits f
    → find_key client hub.partitions ≡ found
    → IsSound hub
    → IsSound (in_found f client found hub)
unfolding in_found
in_found-IsSound f client none hub keeps found s = s
in_found-IsSound f client (some p) hub keeps found s = record {
  funded = s.funded;
  accounted =
      unshare hub.limits hub.usage _ hub.calls hub.calls client p _ hub.partitions s.accounted
        (inl found)
        (keeps _ _ hub.usage hub.calls p
          (share hub.limits hub.usage hub.calls client p hub.partitions s.accounted (inl found)));
}

pub in_partition-IsSound :
    (f : Usage × Partition → Usage × Partition) (client : Bytes) (hub : PendingHub)
    → KeepsShares hub.limits f
    → IsSound hub
    → IsSound (in_partition f client hub)
unfolding in_partition
in_partition-IsSound f client hub keeps s = in_found-IsSound f client _ hub keeps refl s

pub detach-IsSound :
    (e : HubError) (id : ℕ) (client : Bytes) (hub : PendingHub)
    → IsSound hub
    → IsSound (in_partition (detach hub.limits e id) client hub)
unfolding detach
detach-IsSound e id client hub s =
    in_partition-IsSound (detach hub.limits e id) client hub
      (λ rest other u c p sh.
        finish_found-IsShare hub.limits rest other u c p e _ (find_watcher-IsSplit id p.watchers)
          sh)
      s

pub deliver_active-IsSound :
    (ready : WatcherReady) (id : ℕ) (client : Bytes) (hub : PendingHub)
    → IsSound hub
    → IsSound (in_partition (deliver_active ready id) client hub)
unfolding deliver_active
deliver_active-IsSound ready id client hub s =
    in_partition-IsSound (deliver_active ready id) client hub
      (λ rest other u c p sh.
        deliver_found-IsShare hub.limits rest other ready _ u c p
          (find_watcher-IsSplit id p.watchers) sh)
      s

-- One stage of a stopping watcher, on the partition.
abbrev pub stopping_stage : WatcherReady → ℕ → Usage × Partition → Usage × Partition
stopping_stage ready id (u, p) = (u, record p { stopping = deliver_stopping ready id p.stopping })

pub stopping_stage-IsSound :
    (ready : WatcherReady) (id : ℕ) (client : Bytes) (hub : PendingHub)
    → IsSound hub
    → IsSound (in_partition (stopping_stage ready id) client hub)
stopping_stage-IsSound ready id client hub s =
    in_partition-IsSound (stopping_stage ready id) client hub
      (λ rest other u c p sh.
        with_watchers hub.limits rest other u u c p _ refl refl sh.booked sh.own.booked
          sh.own.queued (sh.few_observers, sh.few_entries, sh.few_bytes)
          (sh.own.observers, sh.own.entries, sh.own.bytes) sh)
      s

stop_all-IsSound :
    (e : HubError) (client : Bytes) (hub : PendingHub)
    → IsSound hub
    → IsSound (in_partition (stop_all hub.limits e) client hub)
stop_all-IsSound e client hub s =
    in_partition-IsSound (stop_all hub.limits e) client hub
      (λ rest other u c p sh. finish_watchers-IsShare hub.limits rest other e p.watchers u c p sh) s

pub fence_observers-IsSound :
    (hub : PendingHub) (client : Bytes) → IsSound hub → IsSound (fence_observers hub client).0
unfolding fence_observers
fence_observers-IsSound hub client s =
    if_intro SoundAfter (not (bounded_token client)) (λ _. s)
      (λ _.
        if_intro SoundAfter hub.closed (λ _. s)
          (λ _. stop_all-IsSound observer_fenced client hub s))

close_call_in-IsSound :
    (client : Bytes) (key : PendingKey) (p : Partition) (found : Option PendingCall)
    (hub : PendingHub)
    → find_key client hub.partitions ≡ some p
    → find_call key p.pending ≡ found
    → IsSound hub
    → IsSound (close_call_in client key p found hub)
unfolding close_call_in
close_call_in-IsSound client key p none hub place pending s = s
close_call_in-IsSound client key p (some call) hub place pending s =
    finish_call-IsSound client key call (failed hub_closed) p hub place pending s

close_one-IsSound :
    (client : Bytes) (key : PendingKey) (found : Option Partition) (hub : PendingHub)
    → find_key client hub.partitions ≡ found
    → IsSound hub
    → IsSound (close_one client key found hub)
unfolding close_one
close_one-IsSound client key none hub found s = s
close_one-IsSound client key (some p) hub found s =
    close_call_in-IsSound client key p _ hub found refl s

close_calls-IsSound :
    (client : Bytes) (cs : List (PendingKey × PendingCall)) (hub : PendingHub)
    → IsSound hub
    → IsSound (close_calls client cs hub)
unfolding close_calls
close_calls-IsSound client [] hub s = s
close_calls-IsSound client ((key, call) ∷ cs) hub s =
    close_calls-IsSound client cs (close_one client key (find_key client hub.partitions) hub)
      (close_one-IsSound client key _ hub refl s)

close_clients-IsSound :
    (ps : List (Bytes × Partition)) (hub : PendingHub)
    → IsSound hub
    → IsSound (close_clients ps hub)
unfolding close_clients
close_clients-IsSound [] hub s = s
close_clients-IsSound ((client, p) ∷ ps) hub s =
    close_clients-IsSound ps _ (close_calls-IsSound client (sort_calls p.pending) hub s)

release_all-IsSound :
    (bs : List RunBinding) (hub : PendingHub) → IsSound hub → IsSound (release_all bs hub)
unfolding release_all
release_all-IsSound [] hub s = s
release_all-IsSound (b ∷ bs) hub s =
    release_all-IsSound bs _ (remove_released-IsSound b.token hub s)

stop_clients-IsSound :
    (ps : List (Bytes × Partition)) (hub : PendingHub) → IsSound hub → IsSound (stop_clients ps hub)
unfolding stop_clients
stop_clients-IsSound [] hub s = s
stop_clients-IsSound ((client, p) ∷ ps) hub s =
    stop_clients-IsSound ps _ (stop_all-IsSound hub_closed client hub s)

pub close_hub-IsSound : (hub : PendingHub) → IsSound hub → IsSound (close_hub hub)
unfolding close_hub
close_hub-IsSound hub s =
    let released = release_all hub.bindings (close_clients hub.partitions (shut hub)) in
    if_intro IsSound hub.closed (λ _. s)
      (λ _. stop_clients-IsSound released.partitions released (
        release_all-IsSound hub.bindings (close_clients hub.partitions (shut hub)) (
          close_clients-IsSound hub.partitions (shut hub)
            (record { funded = s.funded; accounted = s.accounted }))))
