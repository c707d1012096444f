-- ===== src/Hub/Kept.antt =====
-- daemon/pending.go: subscriptions, deliveries, fences and the close of the hub, for a property of
-- partitions that every change keeps; with it, every step and every reachable hub.
use spice_agent.Base.{
  ℕ, ◌≡◌, refl, Bool, not, ◌||◌, if_intro, length, leb, ◌==◌, List, [], ◌∷◌, Option, none, some,
  Bytes, ContextError, find_key, max_u64,
}
use spice_agent.Session.Types.{bounded_token}
use spice_agent.Hub.Types.{
  HubError, PendingKey, PendingCall, RunBinding, observer_fenced, hub_closed, failed,
}
use spice_agent.Hub.Watchers.{Usage, WatcherReady, over_reserved}
use spice_agent.Hub.Store.{Partition, PendingHub, find_call}
use spice_agent.Hub.Observing.{
  deliver_stopping, subscribe_in, subscribe_pending, detach, stop_all, deliver_active, in_found,
  in_partition, fence_observers,
}
use spice_agent.Hub.Closing.{
  close_call_in, close_one, close_calls, close_clients, release_all, stop_clients, shut, close_hub,
  sort_calls,
}
use spice_agent.Hub.ShareWatchers.{find_watcher-IsSplit}
use spice_agent.Hub.Sound.{IsSound, Places, partition_for-Places}
use spice_agent.Hub.SoundObservers.{stopping_stage}
use spice_agent.Hub.Reachable.{
  Step, Reaches, Reaches-IsSound, binds, releases, requests, responds, completes, subscribes,
  detaches, delivers, winds_down, fences, closes, starts, follows,
}
use spice_agent.Hub.Partitions.{
  IsKept, Holds, HoldsAfter, found_own, placed-Own, put_key-Own, bind_run-Holds,
  remove_released-Holds, release_run-Holds,
}
use spice_agent.Hub.KeptCalls.{
  request-Holds, finish_call-Holds, respond-Holds, complete_request-Holds,
}

module _ (Own : Partition → Type 0) (kept : IsKept Own) where
  subscribe_in-Holds :
      (hub : PendingHub) (client : Bytes) (found : Option Partition)
      → Places client hub.partitions found
      → Holds Own kept hub
      → HoldsAfter Own kept (subscribe_in hub client found)
  unfolding subscribe_in
  subscribe_in-Holds hub client none place s = s
  subscribe_in-Holds hub client (some p) place s =
      let P = HoldsAfter Own kept in
      let l = hub.limits in
      let own = placed-Own Own kept client p hub s place in
      let stays = put_key-Own Own kept client p hub.partitions s own in
      if_intro P
        (leb l.observers hub.usage.observers || leb l.observers_per_client (length p.watchers))
        (λ _. stays)
        (λ _.
          if_intro P (p.next_watcher == max_u64) (λ _. stays)
            (λ _.
              if_intro P (over_reserved l hub.usage p.usage) (λ _. stays)
                (λ _. put_key-Own Own kept client _ hub.partitions s (kept.subscribed l p own))))

  subscribe_pending-Holds :
      (ended : Option ContextError) (hub : PendingHub) (client : Bytes)
      → Holds Own kept hub
      → HoldsAfter Own kept (subscribe_pending ended hub client)
  unfolding subscribe_pending
  subscribe_pending-Holds (some c) hub client s = s
  subscribe_pending-Holds none hub client s =
      let P = HoldsAfter Own kept in
      if_intro P (not (bounded_token client)) (λ _. s)
        (λ _.
          if_intro P hub.closed (λ _. s)
            (λ _.
              subscribe_in-Holds hub client _
                (partition_for-Places hub.limits client hub.partitions) s))

  -- A change of one client keeps the property of all if it keeps that of one.
  in_found-Holds :
      (f : Usage × Partition → Usage × Partition) (client : Bytes) (found : Option Partition)
      (hub : PendingHub)
      → ((u : Usage) (p : Partition) → Own p → Own (f (u, p)).1)
      → find_key client hub.partitions ≡ found
      → Holds Own kept hub
      → Holds Own kept (in_found f client found hub)
  unfolding in_found
  in_found-Holds f client none hub keeps found s = s
  in_found-Holds f client (some p) hub keeps found s =
      put_key-Own Own kept client _ hub.partitions s
        (keeps hub.usage p (found_own Own kept client p hub s found))

  in_partition-Holds :
      (f : Usage × Partition → Usage × Partition) (client : Bytes) (hub : PendingHub)
      → ((u : Usage) (p : Partition) → Own p → Own (f (u, p)).1)
      → Holds Own kept hub
      → Holds Own kept (in_partition f client hub)
  unfolding in_partition
  in_partition-Holds f client hub keeps s = in_found-Holds f client _ hub keeps refl s

  stop_all-Holds :
      (e : HubError) (client : Bytes) (hub : PendingHub)
      → Holds Own kept hub
      → Holds Own kept (in_partition (stop_all hub.limits e) client hub)
  stop_all-Holds e client hub s =
      in_partition-Holds (stop_all hub.limits e) client hub (kept.finished_all hub.limits e) s

  detach-Holds :
      (e : HubError) (id : ℕ) (client : Bytes) (hub : PendingHub)
      → Holds Own kept hub
      → Holds Own kept (in_partition (detach hub.limits e id) client hub)
  unfolding detach
  detach-Holds e id client hub s =
      in_partition-Holds (detach hub.limits e id) client hub
        (λ u p. kept.finished hub.limits e _ u p (find_watcher-IsSplit id p.watchers)) s

  deliver_active-Holds :
      (ready : WatcherReady) (id : ℕ) (client : Bytes) (hub : PendingHub)
      → Holds Own kept hub
      → Holds Own kept (in_partition (deliver_active ready id) client hub)
  unfolding deliver_active
  deliver_active-Holds ready id client hub s =
      in_partition-Holds (deliver_active ready id) client hub
        (λ u p. kept.delivered ready _ u p (find_watcher-IsSplit id p.watchers)) s

  fence_observers-Holds :
      (hub : PendingHub) (client : Bytes)
      → Holds Own kept hub
      → HoldsAfter Own kept (fence_observers hub client)
  unfolding fence_observers
  fence_observers-Holds hub client s =
      let P = HoldsAfter Own kept in
      if_intro P (not (bounded_token client)) (λ _. s)
        (λ _. if_intro P hub.closed (λ _. s) (λ _. stop_all-Holds observer_fenced client hub s))

  close_call_in-Holds :
      (client : Bytes) (key : PendingKey) (p : Partition) (found : Option PendingCall)
      (hub : PendingHub)
      → find_key client hub.partitions ≡ some p
      → find_call key p.pending ≡ found
      → Holds Own kept hub
      → Holds Own kept (close_call_in client key p found hub)
  unfolding close_call_in
  close_call_in-Holds client key p none hub place pending s = s
  close_call_in-Holds client key p (some call) hub place pending s =
      finish_call-Holds Own kept client key call (failed hub_closed) p hub place pending s

  close_one-Holds :
      (client : Bytes) (key : PendingKey) (found : Option Partition) (hub : PendingHub)
      → find_key client hub.partitions ≡ found
      → Holds Own kept hub
      → Holds Own kept (close_one client key found hub)
  unfolding close_one
  close_one-Holds client key none hub found s = s
  close_one-Holds client key (some p) hub found s =
      close_call_in-Holds client key p _ hub found refl s

  close_calls-Holds :
      (client : Bytes) (cs : List (PendingKey × PendingCall)) (hub : PendingHub)
      → Holds Own kept hub
      → Holds Own kept (close_calls client cs hub)
  unfolding close_calls
  close_calls-Holds client [] hub s = s
  close_calls-Holds client ((key, call) ∷ cs) hub s =
      close_calls-Holds client cs (close_one client key (find_key client hub.partitions) hub)
        (close_one-Holds client key _ hub refl s)

  close_clients-Holds :
      (ps : List (Bytes × Partition)) (hub : PendingHub)
      → Holds Own kept hub
      → Holds Own kept (close_clients ps hub)
  unfolding close_clients
  close_clients-Holds [] hub s = s
  close_clients-Holds ((client, p) ∷ ps) hub s =
      close_clients-Holds ps (close_calls client (sort_calls p.pending) hub)
        (close_calls-Holds client (sort_calls p.pending) hub s)

  release_all-Holds :
      (bs : List RunBinding) (hub : PendingHub)
      → Holds Own kept hub
      → Holds Own kept (release_all bs hub)
  unfolding release_all
  release_all-Holds [] hub s = s
  release_all-Holds (b ∷ bs) hub s =
      release_all-Holds bs _ (remove_released-Holds Own kept b.token hub s)

  stop_clients-Holds :
      (ps : List (Bytes × Partition)) (hub : PendingHub)
      → Holds Own kept hub
      → Holds Own kept (stop_clients ps hub)
  unfolding stop_clients
  stop_clients-Holds [] hub s = s
  stop_clients-Holds ((client, p) ∷ ps) hub s =
      stop_clients-Holds ps (in_partition (stop_all hub.limits hub_closed) client hub)
        (stop_all-Holds hub_closed client hub s)

  close_hub-Holds : (hub : PendingHub) → Holds Own kept hub → Holds Own kept (close_hub hub)
  unfolding close_hub
  close_hub-Holds hub s =
      let finished = close_clients hub.partitions (shut hub) in
      let released = release_all hub.bindings finished in
      if_intro (Holds Own kept) hub.closed (λ _. s)
        (λ _. stop_clients-Holds released.partitions released (
          release_all-Holds hub.bindings finished
            (close_clients-Holds hub.partitions (shut hub) s)))

  Step-Holds :
      (json_valid : Bytes → Bool) (hub next : PendingHub)
      → Step json_valid hub next
      → IsSound hub
      → Holds Own kept hub
      → Holds Own kept next
  Step-Holds json_valid hub _ (binds client scope) sound s =
      bind_run-Holds Own kept hub client scope s
  Step-Holds json_valid hub _ (releases t) sound s = release_run-Holds Own kept t hub s
  Step-Holds json_valid hub _ (requests ended scope r) sound s =
      request-Holds Own kept json_valid ended hub scope r sound s
  Step-Holds json_valid hub _ (responds client scope response) sound s =
      respond-Holds Own kept json_valid hub client scope response s
  Step-Holds json_valid hub _ (completes call result) sound s =
      complete_request-Holds Own kept call result hub s
  Step-Holds json_valid hub _ (subscribes ended client) sound s =
      subscribe_pending-Holds ended hub client s
  Step-Holds json_valid hub _ (detaches e id client) sound s = detach-Holds e id client hub s
  Step-Holds json_valid hub _ (delivers ready id client) sound s =
      deliver_active-Holds ready id client hub s
  Step-Holds json_valid hub _ (winds_down ready id client) sound s =
      in_partition-Holds (stopping_stage ready id) client hub
        (λ u p. kept.stopped p (deliver_stopping ready id p.stopping)) s
  Step-Holds json_valid hub _ (fences client) sound s = fence_observers-Holds hub client s
  Step-Holds json_valid hub _ closes sound s = close_hub-Holds hub s

  pub Reaches-Holds :
      (json_valid : Bytes → Bool) (start hub : PendingHub)
      → Reaches json_valid start hub
      → IsSound start
      → Holds Own kept start
      → Holds Own kept hub
  Reaches-Holds json_valid start _ starts sound s = s
  Reaches-Holds json_valid start next (follows {hub = hub} before step) sound s =
      Step-Holds json_valid hub next step (Reaches-IsSound json_valid start hub before sound)
        (Reaches-Holds json_valid start hub before sound s)
