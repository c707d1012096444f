-- ===== src/Hub/Observing.antt =====
-- daemon/pending.go: snapshots, subscriptions and the steps of their goroutines, and fencing.
use spice_agent.Base.{
  ℕ, suc, Bool, ◌||◌, not, if◌then◌else◌, leb, ◌==◌, length, List, [], ◌∷◌, ◌++◌, Option, none,
  some, Bytes, bytes_eq, bytes_ltb, Result, ok, err, ContextError, max_u64, find_key, put_key,
}
use spice_agent.Session.Types.{bounded_token}
use spice_agent.Hub.Types.{
  Pending, PendingLimits, HubError, hub_closed, observer_fenced, observer_capacity, bad_client,
  context_failed, PendingSnapshot, PendingKey, key_of, PendingCall,
}
use spice_agent.Hub.Watchers.{
  Usage, Watcher, new_watcher, reserve, over_reserved, give_back, stop_watcher, WatcherStage,
  WatcherReady, deliver_watcher, delivered_at, returned,
}
use spice_agent.Hub.Store.{Partition, PendingHub, partition_for}

-- The order of the snapshot and of Close, by run and by interaction.
unfoldable pub key_ltb : PendingKey → PendingKey → Bool
key_ltb a b =
    if not (bytes_eq a.run_id b.run_id)
    then bytes_ltb a.run_id b.run_id
    else bytes_ltb a.interaction_id b.interaction_id

-- snapshotLocked: the values, sorted by their keys, which differ.
unfoldable pub insert_pending : Pending → List Pending → List Pending
unfolding key_ltb
insert_pending v [] = v ∷ []
insert_pending v (d ∷ ds) =
    let later = insert_pending v ds in
    if key_ltb (key_of v) (key_of d) then v ∷ d ∷ ds else d ∷ later

unfoldable pub sort_values : List (PendingKey × PendingCall) → List Pending
unfolding insert_pending
sort_values [] = []
sort_values ((key, call) ∷ cs) = insert_pending call.value (sort_values cs)

unfoldable pub snapshot_of : Partition → PendingSnapshot
unfolding sort_values
snapshot_of p = record { revision = p.revision; pending = sort_values p.pending }

-- Snapshot
abbrev or_empty : Option Partition → PendingSnapshot
or_empty none = record { revision = 0; pending = [] }
or_empty (some p) = snapshot_of p

unfoldable pub snapshot : PendingHub → Bytes → Result HubError PendingSnapshot
unfolding bounded_token find_key snapshot_of
snapshot hub client =
    if not (bounded_token client)
    then err bad_client
    else if hub.closed
    then err hub_closed
    else ok (or_empty (find_key client hub.partitions))

-- Subscribe on the partition of the client, or on the new one of a new client, which stays also when
-- the observer is refused.
unfoldable pub subscribe_in :
    PendingHub → Bytes → Option Partition → PendingHub × Result HubError (PendingSnapshot × ℕ)
unfolding put_key new_watcher reserve over_reserved snapshot_of
subscribe_in hub client none = (hub, err observer_capacity)
subscribe_in hub client (some p) =
    let kept = record hub { partitions = put_key client p hub.partitions } in
    let id = suc p.next_watcher in
    if leb hub.limits.observers hub.usage.observers
      || leb hub.limits.observers_per_client (length p.watchers)
    then (kept, err observer_capacity)
    else if p.next_watcher == max_u64
    then (kept, err observer_capacity)
    else if over_reserved hub.limits hub.usage p.usage
    then (kept, err observer_capacity)
    else (
      record hub {
        usage = reserve hub.limits hub.usage;
        partitions =
            put_key client
              (record p {
                next_watcher = id;
                usage = reserve hub.limits p.usage;
                watchers = p.watchers ++ new_watcher id (snapshot_of p) ∷ [];
              })
              hub.partitions;
      },
      ok (snapshot_of p, id),
    )

-- Subscribe
unfoldable pub subscribe_pending :
    Option ContextError → PendingHub → Bytes → PendingHub × Result HubError (PendingSnapshot × ℕ)
unfolding bounded_token subscribe_in partition_for
subscribe_pending (some c) hub client = (hub, err (context_failed c))
subscribe_pending none hub client =
    if not (bounded_token client)
    then (hub, err bad_client)
    else if hub.closed
    then (hub, err hub_closed)
    else subscribe_in hub client (partition_for hub.limits client hub.partitions)

-- The watchers of the map apart: those before the one with the identity, it, and those after it.
pub record Found : Type 0 where
  pub before : List Watcher
  pub watcher : Watcher
  pub after : List Watcher

unfoldable pub push_before : Watcher → Option Found → Option Found
push_before w none = none
push_before w (some f) = some (record f { before = w ∷ f.before })

unfoldable pub find_watcher : ℕ → List Watcher → Option Found
unfolding push_before
find_watcher id [] = none
find_watcher id (w ∷ ws) =
    let later = push_before w (find_watcher id ws) in
    if w.id == id then some (record { before = []; watcher = w; after = ws }) else later

-- finishWatcherLocked on a partition and the counters of the hub, by the watcher in the map.
unfoldable pub finish_found :
    PendingLimits → HubError → Option Found → Usage × Partition → Usage × Partition
unfolding give_back stop_watcher
finish_found l e none (hub, p) = (hub, p)
finish_found l e (some f) (hub, p) = (
  give_back l f.watcher hub,
  record p {
    usage = give_back l f.watcher p.usage;
    watchers = f.before ++ f.after;
    stopping = stop_watcher e none f.watcher ∷ p.stopping;
  },
)

-- detachWatcher, on the end of the subscriber's context.
unfoldable pub detach : PendingLimits → HubError → ℕ → Usage × Partition → Usage × Partition
unfolding finish_found find_watcher
detach l e id (hub, p) = finish_found l e (find_watcher id p.watchers) (hub, p)

-- The loops of FenceObservers and Close over the watchers of a partition.
unfoldable pub finish_watchers :
    PendingLimits → HubError → List Watcher → Usage × Partition → Usage × Partition
unfolding give_back stop_watcher
finish_watchers l e [] (hub, p) = (hub, record p { watchers = [] })
finish_watchers l e (w ∷ ws) (hub, p) = finish_watchers l e ws (
  give_back l w hub,
  record p { usage = give_back l w p.usage; stopping = stop_watcher e none w ∷ p.stopping },
)

-- One stage of the goroutine of a watcher in the map.
unfoldable pub deliver_found : WatcherReady → Option Found → Usage × Partition → Usage × Partition
unfolding delivered_at deliver_watcher
deliver_found ready none (hub, p) = (hub, p)
deliver_found ready (some f) (hub, p) = (
  delivered_at f.watcher.stage hub,
  record p {
    usage = delivered_at f.watcher.stage p.usage;
    watchers = f.before ++ deliver_watcher ready f.watcher ∷ f.after;
  },
)

unfoldable pub deliver_active : WatcherReady → ℕ → Usage × Partition → Usage × Partition
unfolding deliver_found find_watcher
deliver_active ready id (hub, p) = deliver_found ready (find_watcher id p.watchers) (hub, p)

-- One stage of the goroutine of a watcher that is stopping; watcherStopped drops it when it returned.
keep_stopping : Watcher → WatcherStage → List Watcher → List Watcher
keep_stopping w returned ws = ws
keep_stopping w stage ws = w ∷ ws

unfoldable pub deliver_stopping : WatcherReady → ℕ → List Watcher → List Watcher
unfolding deliver_watcher keep_stopping
deliver_stopping ready id [] = []
deliver_stopping ready id (w ∷ ws) =
    let later = deliver_stopping ready id ws in
    let moved = deliver_watcher ready w in
    if w.id == id then keep_stopping moved moved.stage ws else w ∷ later

-- A change of one client's partition and of the counters of the hub.
unfoldable pub in_found :
    (Usage × Partition → Usage × Partition) → Bytes → Option Partition → PendingHub → PendingHub
unfolding put_key
in_found f client none hub = hub
in_found f client (some p) hub =
    let (usage, p') = f (hub.usage, p) in
    record hub { usage = usage; partitions = put_key client p' hub.partitions }

unfoldable pub in_partition :
    (Usage × Partition → Usage × Partition) → Bytes → PendingHub → PendingHub
unfolding in_found find_key
in_partition f client hub = in_found f client (find_key client hub.partitions) hub

abbrev pub stop_all : PendingLimits → HubError → Usage × Partition → Usage × Partition
stop_all l e (hub, p) = finish_watchers l e p.watchers (hub, p)

-- FenceObservers, up to its wait for the goroutines.
unfoldable pub fence_observers : PendingHub → Bytes → PendingHub × Option HubError
unfolding bounded_token in_partition finish_watchers
fence_observers hub client =
    if not (bounded_token client)
    then (hub, some bad_client)
    else if hub.closed
    then (hub, some hub_closed)
    else (in_partition (stop_all hub.limits observer_fenced) client hub, none)
