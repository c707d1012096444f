-- ===== src/Hub/Watchers.antt =====
-- daemon/pending.go: the observers of one client, their queues and their delivery goroutines. `Usage`
-- has the counters that the hub and each client's partition both keep; for a client, `observers` is
-- len(partition.watchers).
use spice_agent.Base.{
  ℕ, suc, ◌+◌, ◌-◌, Bool, true, false, ◌||◌, if◌then◌else◌, ltb, leb, length, List, [], ◌∷◌, ◌++◌,
  Option, none, some,
}
use spice_agent.Hub.Types.{
  PendingLimits, Delta, HubError, exhausted, Exhaustion, observer_queue_entries,
  observer_queue_bytes, observer_entries, observer_client_entries, observer_bytes,
  observer_client_bytes, pending_delta_bytes, PendingSnapshot,
}

pub record Usage : Type 0 where
  pub observers : ℕ
  pub entries : ℕ
  pub bytes : ℕ
  pub reserved_entries : ℕ
  pub reserved_bytes : ℕ

abbrev pub no_usage : Usage
no_usage = record {
  observers = 0;
  entries = 0;
  bytes = 0;
  reserved_entries = 0;
  reserved_bytes = 0;
}

pub record QueuedDelta : Type 0 where
  pub delta : Delta
  pub bytes : ℕ

-- Where the goroutine of a watcher stands: at the outer select; at the inner select with an item that
-- it took from the queue; past the send, about to call `delivered`; returned.
pub data WatcherStage : Type 0 where
  selecting : WatcherStage
  holding : QueuedDelta → WatcherStage
  passed_on : QueuedDelta → WatcherStage
  returned : WatcherStage

-- pendingWatcher. `stop` is closed exactly when `active` is false; `received` is what the consumer
-- has got from the channel `out`, and `snapshot` what its subscription began with.
pub record Watcher : Type 0 where
  pub id : ℕ
  pub snapshot : PendingSnapshot
  pub queue : List QueuedDelta
  pub stage : WatcherStage
  pub active : Bool
  pub error : Option HubError
  pub exhaustion : Option Exhaustion
  pub last_delivered : ℕ
  pub queued_count : ℕ
  pub queued_bytes : ℕ
  pub received : List Delta

-- The watcher that Subscribe creates.
unfoldable pub new_watcher : ℕ → PendingSnapshot → Watcher
new_watcher id snapshot = record {
  id = id;
  snapshot = snapshot;
  queue = [];
  stage = selecting;
  active = true;
  error = none;
  exhaustion = none;
  last_delivered = snapshot.revision;
  queued_count = 0;
  queued_bytes = 0;
  received = [];
}

-- The reservation that Subscribe makes, and its test.
unfoldable pub reserve : PendingLimits → Usage → Usage
reserve l u = record u {
  observers = suc u.observers;
  reserved_entries = u.reserved_entries + l.observer_queue_entries;
  reserved_bytes = u.reserved_bytes + l.observer_queue_bytes;
}

-- The tests of the reserved queue space; the limits cover one queue, so no difference is negative.
unfoldable pub over_reserved : PendingLimits → Usage → Usage → Bool
over_reserved l hub client =
    ltb (l.reserved_queue_entries - l.observer_queue_entries) hub.reserved_entries
    || ltb (l.reserved_queue_entries_per_client - l.observer_queue_entries) client.reserved_entries
    || ltb (l.reserved_queue_bytes - l.observer_queue_bytes) hub.reserved_bytes
    || ltb (l.reserved_queue_bytes_per_client - l.observer_queue_bytes) client.reserved_bytes

-- A queued item in the counters, and out of them again.
unfoldable pub charge : ℕ → Usage → Usage
charge size u = record u { entries = suc u.entries; bytes = u.bytes + size }

unfoldable pub refund : ℕ → Usage → Usage
refund size u = record u { entries = u.entries - 1; bytes = u.bytes - size }

-- What finishWatcherLocked takes off the counters.
unfoldable pub give_back : PendingLimits → Watcher → Usage → Usage
give_back l w u = record {
  observers = u.observers - 1;
  entries = u.entries - w.queued_count;
  bytes = u.bytes - w.queued_bytes;
  reserved_entries = u.reserved_entries - l.observer_queue_entries;
  reserved_bytes = u.reserved_bytes - l.observer_queue_bytes;
}

-- finishWatcherLocked on a watcher of the map, which is active.
unfoldable pub stop_watcher : HubError → Option Exhaustion → Watcher → Watcher
stop_watcher e reason w = record w {
  active = false;
  error = some e;
  exhaustion = reason;
  queued_count = 0;
  queued_bytes = 0;
}

-- The tests of enqueueLocked, in order: the exhaustion, or none. The last is the send on a full
-- channel, whose capacity is the bound of the first.
unfoldable pub refuse_delta : PendingLimits → Usage → Usage → Watcher → ℕ → Option Exhaustion
refuse_delta l hub client w size =
    if leb l.observer_queue_entries w.queued_count
    then some (record {
      resource = observer_queue_entries;
      limit = l.observer_queue_entries;
      observed = suc w.queued_count;
    })
    else if ltb l.observer_queue_bytes size || ltb (l.observer_queue_bytes - size) w.queued_bytes
    then some (record {
      resource = observer_queue_bytes;
      limit = l.observer_queue_bytes;
      observed = w.queued_bytes + size;
    })
    else if leb l.queued_entries hub.entries
    then some (record {
      resource = observer_entries;
      limit = l.queued_entries;
      observed = suc hub.entries;
    })
    else if leb l.queued_entries_per_client client.entries
    then some (record {
      resource = observer_client_entries;
      limit = l.queued_entries_per_client;
      observed = suc client.entries;
    })
    else if ltb l.queued_bytes size || ltb (l.queued_bytes - size) hub.bytes
    then some
        (record { resource = observer_bytes; limit = l.queued_bytes; observed = hub.bytes + size })
    else if ltb l.queued_bytes_per_client size
        || ltb (l.queued_bytes_per_client - size) client.bytes
    then some (record {
      resource = observer_client_bytes;
      limit = l.queued_bytes_per_client;
      observed = client.bytes + size;
    })
    else if leb l.observer_queue_entries (length w.queue)
    then some (record {
      resource = observer_queue_entries;
      limit = l.observer_queue_entries;
      observed = suc (length w.queue);
    })
    else none

-- The watcher with the item that enqueueLocked sends.
unfoldable pub enqueue : Delta → ℕ → Watcher → Watcher
enqueue delta size w = record w {
  queue = w.queue ++ record { delta = delta; bytes = size } ∷ [];
  queued_count = suc w.queued_count;
  queued_bytes = w.queued_bytes + size;
}

-- The counters and the watchers that publishLocked works on, the watchers by increasing identity.
pub record Board : Type 0 where
  pub hub : Usage
  pub client : Usage
  pub watchers : List Watcher
  pub stopping : List Watcher

-- One watcher in publishLocked: it takes the delta, or it is finished.
unfoldable pub offer_delta : PendingLimits → Delta → Watcher → Option Exhaustion → Board → Board
unfolding charge enqueue stop_watcher give_back
offer_delta l delta w none b =
    let size = pending_delta_bytes delta in
    record b {
      hub = charge size b.hub;
      client = charge size b.client;
      watchers = b.watchers ++ enqueue delta size w ∷ [];
    }
offer_delta l delta w (some x) b = record {
  hub = give_back l w b.hub;
  client = give_back l w b.client;
  watchers = b.watchers;
  stopping = stop_watcher (exhausted x 0) (some x) w ∷ b.stopping;
}

-- The loop of publishLocked. The board's watchers are those that were offered the delta already.
unfoldable pub offer_deltas : PendingLimits → Delta → List Watcher → Board → Board
unfolding offer_delta refuse_delta
offer_deltas l delta [] b = b
offer_deltas l delta (w ∷ ws) b =
    offer_deltas l delta ws
      (offer_delta l delta w (refuse_delta l b.hub b.client w (pending_delta_bytes delta)) b)

-- What the goroutine of a watcher finds ready: the stop, its queue, or the consumer.
pub data WatcherReady : Type 0 where
  stop_closed queue_ready consumer_ready : WatcherReady

unfoldable pub take_item : Watcher → List QueuedDelta → Watcher
take_item w [] = w
take_item w (x ∷ xs) = record w { queue = xs; stage = holding x }

-- The return of the goroutine, which discards the queue.
unfoldable pub return_watcher : Watcher → Watcher
return_watcher w = record w { stage = returned; queue = [] }

-- The watcher's part of `delivered`.
unfoldable pub mark_delivered : QueuedDelta → Watcher → Watcher
mark_delivered item w =
    let last =
      if ltb w.last_delivered item.delta.revision then item.delta.revision else w.last_delivered in
    if w.active
    then record w {
      stage = selecting;
      last_delivered = last;
      queued_count = w.queued_count - 1;
      queued_bytes = w.queued_bytes - item.bytes;
    }
    else record w { stage = selecting; last_delivered = last }

-- deliver, one stage, as far as it concerns the watcher. A select takes what is ready.
unfoldable pub deliver_watcher_at : WatcherStage → WatcherReady → Watcher → Watcher
unfolding take_item return_watcher mark_delivered
deliver_watcher_at selecting stop_closed w = if w.active then w else return_watcher w
deliver_watcher_at selecting queue_ready w = take_item w w.queue
deliver_watcher_at selecting consumer_ready w = w
deliver_watcher_at (holding x) stop_closed w = if w.active then w else return_watcher w
deliver_watcher_at (holding x) queue_ready w = w
deliver_watcher_at (holding x) consumer_ready w = record w {
  stage = passed_on x;
  received = w.received ++ x.delta ∷ [];
}
deliver_watcher_at (passed_on x) ready w = mark_delivered x w
deliver_watcher_at returned ready w = w

unfoldable pub deliver_watcher : WatcherReady → Watcher → Watcher
unfolding deliver_watcher_at
deliver_watcher ready w = deliver_watcher_at w.stage ready w

-- The counters that a stage of an active watcher gives back.
unfoldable pub delivered_at : WatcherStage → Usage → Usage
unfolding refund
delivered_at (passed_on x) u = refund x.bytes u
delivered_at _ u = u

-- terminalError, of a stopped watcher: an exhaustion gets the last revision that was delivered.
unfoldable pub terminal_error : Watcher → Option HubError
terminal_error w = elim w.exhaustion [
  | none ↦ w.error
  | some x ↦ some (exhausted x w.last_delivered)
]
