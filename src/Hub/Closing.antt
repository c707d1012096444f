-- ===== src/Hub/Closing.antt =====
-- daemon/pending.go: Close.
use spice_agent.Base.{
  true, false, if◌then◌else◌, List, [], ◌∷◌, map, Option, none, some, Bytes, find_key,
}
use spice_agent.Hub.Types.{hub_closed, PendingKey, failed, PendingCall, RunBinding}
use spice_agent.Hub.Store.{Partition, PendingHub, find_call}
use spice_agent.Hub.Operations.{finish_call, remove_released}
use spice_agent.Hub.Observing.{key_ltb, in_partition, stop_all, finish_watchers}

-- sort.Slice in Close on the calls of a partition, whose keys differ.
unfoldable pub insert_call :
    PendingKey × PendingCall → List (PendingKey × PendingCall) → List (PendingKey × PendingCall)
unfolding key_ltb
insert_call c [] = c ∷ []
insert_call c (d ∷ ds) =
    let later = insert_call c ds in if key_ltb c.0 d.0 then c ∷ d ∷ ds else d ∷ later

unfoldable pub sort_calls : List (PendingKey × PendingCall) → List (PendingKey × PendingCall)
unfolding insert_call
sort_calls [] = []
sort_calls (c ∷ cs) = insert_call c (sort_calls cs)

-- The loop of Close over the sorted calls of one client; a key of the map is looked up for its call.
unfoldable pub close_call_in :
    Bytes → PendingKey → Partition → Option PendingCall → PendingHub → PendingHub
unfolding finish_call
close_call_in client key p none hub = hub
close_call_in client key p (some call) hub = finish_call client key call (failed hub_closed) p hub

unfoldable pub close_one : Bytes → PendingKey → Option Partition → PendingHub → PendingHub
unfolding close_call_in find_call
close_one client key none hub = hub
close_one client key (some p) hub = close_call_in client key p (find_call key p.pending) hub

unfoldable pub close_calls : Bytes → List (PendingKey × PendingCall) → PendingHub → PendingHub
unfolding close_one find_key
close_calls client [] hub = hub
close_calls client ((key, call) ∷ cs) hub =
    close_calls client cs (close_one client key (find_key client hub.partitions) hub)

-- The clients of Close one by one: the order among them shows nowhere, since each has its own
-- revisions and the counters are sums.
unfoldable pub close_clients : List (Bytes × Partition) → PendingHub → PendingHub
unfolding close_calls sort_calls
close_clients [] hub = hub
close_clients ((client, p) ∷ ps) hub =
    close_clients ps (close_calls client (sort_calls p.pending) hub)

unfoldable pub release_all : List RunBinding → PendingHub → PendingHub
unfolding remove_released
release_all [] hub = hub
release_all (b ∷ bs) hub = release_all bs (remove_released b.token hub)

unfoldable pub stop_clients : List (Bytes × Partition) → PendingHub → PendingHub
unfolding in_partition finish_watchers
stop_clients [] hub = hub
stop_clients ((client, p) ∷ ps) hub =
    stop_clients ps (in_partition (stop_all hub.limits hub_closed) client hub)

-- The beginning of Close: no call is taken any more, and no run accepts.
abbrev pub shut : PendingHub → PendingHub
shut hub = record hub {
  closed = true;
  bindings = map (λ (b : RunBinding). record b { accepting = false }) hub.bindings;
}

-- Close, up to its wait for the goroutines.
unfoldable pub close_hub : PendingHub → PendingHub
unfolding close_clients release_all stop_clients
close_hub hub =
    if hub.closed
    then hub
    else (let released = release_all hub.bindings (close_clients hub.partitions (shut hub)) in
        stop_clients released.partitions released)
