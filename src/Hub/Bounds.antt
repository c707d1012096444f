-- ===== src/Hub/Bounds.antt =====
-- daemon/pending.go: what the hub and its clients hold in memory, in every hub that can be reached.
use spice_agent.Base.{
  ◌≤◌, ◌≡◌, refl, subst, inl, Result, err, Bool, length, List, [], ◌∷◌, arith, All, some, Bytes, ok,
  find_key, sum_over,
}
use spice_agent.Hub.Types.{PendingLimits, LimitLabel}
use spice_agent.Hub.Limits.{validate_pending_limits-AreFunded, validate_pending_limits}
use spice_agent.Hub.Watchers.{Watcher}
use spice_agent.Hub.Booking.{IsQueued, queue_bytes, IsBooked-IsCovered}
use spice_agent.Hub.Store.{Partition, PendingHub, new_pending_hub, fresh_hub}
use spice_agent.Hub.Accounts.{call_bytes}
use spice_agent.Hub.Shares.{share}
use spice_agent.Hub.Sound.{IsSound}
use spice_agent.Hub.Reachable.{Reaches, Reaches-IsSound}

-- A new hub is sound, since NewPendingHub validates its limits.
pub new_pending_hub-IsSound :
    (limits : PendingLimits) (start : PendingHub)
    → new_pending_hub limits ≡ ok start
    → IsSound start
unfolding new_pending_hub sum_over
new_pending_hub-IsSound limits start =
    elim (validate_pending_limits limits)
        as (λ r.
          validate_pending_limits limits ≡ r
          → (elim r as (λ _. Result LimitLabel PendingHub) [
            | err e ↦ err e
            | ok u ↦ ok (fresh_hub limits)
          ])
            ≡ ok start
          → IsSound start) [
            | err e ↦ λ _ h. absurd (grind arith)
            | ok u ↦ λ valid h.
                let same : fresh_hub limits ≡ start = grind arith in
                subst IsSound same (record {
                  funded = validate_pending_limits-AreFunded limits valid;
                  accounted = record {
                    owns = tt;
                    observers = refl;
                    entries = refl;
                    bytes = refl;
                    reserved_entries = refl;
                    reserved_bytes = refl;
                    count = refl;
                    call_bytes = refl;
                    few_observers = omega arith;
                    few_entries = omega arith;
                    few_bytes = omega arith;
                    few_calls = omega arith;
                    light_calls = omega arith;
                  };
                })
          ]
      refl

-- In every hub that calls and goroutines reach from a new one, in any order, the hub's counters of
-- observers, queued and reserved entries and bytes, and pending calls are the sums of what its clients
-- have, each client's are what its observers' queues, the items in flight and its pending calls amount
-- to, and they are within the limits.
pub Reaches-new_pending_hub :
    (json_valid : Bytes → Bool) (limits : PendingLimits) (start hub : PendingHub)
    → new_pending_hub limits ≡ ok start
    → Reaches json_valid start hub
    → IsSound hub
Reaches-new_pending_hub json_valid limits start hub made reached =
    Reaches-IsSound json_valid start hub reached (new_pending_hub-IsSound limits start made)

-- What the queues of a client hold.
IsQueued-bounds :
    (l : PendingLimits) (ws : List Watcher)
    → All (IsQueued l) ws
    → All
        (λ w.
          (length w.queue ≤ l.observer_queue_entries)
          × (queue_bytes w.queue ≤ l.observer_queue_bytes))
        ws
IsQueued-bounds l [] all = tt
IsQueued-bounds l (w ∷ ws) (q, all) =
    ((omega (arith, q.counted, q.few), omega (arith, q.weighed, q.light)), IsQueued-bounds l ws all)

-- In every hub that can be reached, a client's observers have at most the entries and the bytes of one
-- queue each, no more of them than the limit, its pending calls are within its bounds on their number and
-- their bytes, and all that is queued in the hub is within the bounds of the hub.
pub queues_bounded :
    (json_valid : Bytes → Bool) (limits : PendingLimits) (start hub : PendingHub) (client : Bytes)
    (p : Partition)
    → new_pending_hub limits ≡ ok start
    → Reaches json_valid start hub
    → find_key client hub.partitions ≡ some p
    → All
        (λ w.
          (length w.queue ≤ hub.limits.observer_queue_entries)
          × (queue_bytes w.queue ≤ hub.limits.observer_queue_bytes))
        p.watchers
      × (length p.watchers ≤ hub.limits.observers_per_client)
      × (length p.pending ≤ hub.limits.pending_per_client)
      × (call_bytes p.pending ≤ hub.limits.pending_bytes_per_client)
      × (sum_over (λ q. length q.pending) hub.partitions ≤ hub.limits.pending)
      × (sum_over (λ q. q.usage.entries) hub.partitions ≤ hub.limits.queued_entries)
      × (sum_over (λ q. q.usage.bytes) hub.partitions ≤ hub.limits.queued_bytes)
queues_bounded json_valid limits start hub client p made reached found =
    let s = Reaches-new_pending_hub json_valid limits start hub made reached in
    let a = s.accounted in
    let sh = share hub.limits hub.usage hub.calls client p hub.partitions a (inl found) in
    let own = sh.own in
    let c =
      IsBooked-IsCovered hub.limits _ hub.usage [] p.watchers sh.booked sh.covered tt own.queued in
    (
      IsQueued-bounds hub.limits p.watchers own.queued,
      omega (arith, own.booked.observers, own.observers),
      own.few,
      omega (arith, own.weighed, own.light),
      omega (arith, a.count, a.few_calls),
      omega (arith, a.entries, c.entries, a.few_entries, s.funded.entries_cover),
      omega (arith, a.bytes, c.bytes, a.few_bytes, s.funded.bytes_cover),
    )
