-- ===== src/Hub/Isolation.antt =====
-- daemon/pending.go, publishLocked: the limits fund every observer's queue, so that only an observer's
-- own queue decides whether it is exhausted.
use spice_agent.Base.{
  ℕ, suc, ◌+◌, ◌-◌, ◌≤◌, ◌<◌, ◌≡◌, ◌∙◌, false, ◌||◌, if◌then◌else◌, if_congr, if_false, ltb, leb,
  length, List, ◌∷◌, Option, none, some, arith, All,
}
use spice_agent.Hub.Types.{PendingLimits, Exhaustion, observer_queue_entries, observer_queue_bytes}
use spice_agent.Hub.Limits.{AreFunded}
use spice_agent.Hub.Watchers.{Usage, no_usage, Watcher, refuse_delta, Board}
use spice_agent.Hub.Booking.{IsQueued, IsBooked, IsCovered, booked_room}

-- The tests of an observer's own queue.
unfoldable pub own_refusal : PendingLimits → Watcher → ℕ → Option Exhaustion
own_refusal l w size =
    if leb l.observer_queue_entries w.queued_count
    then some (record {
      resource = observer_queue_entries;
      limit = l.observer_queue_entries;
      observed = suc w.queued_count;
    })
    else if ltb l.observer_queue_bytes size || ltb (l.observer_queue_bytes - size) w.queued_bytes
    then some (record {
      resource = observer_queue_bytes;
      limit = l.observer_queue_bytes;
      observed = w.queued_bytes + size;
    })
    else none

-- The board in the middle of publishLocked: `todo` are the watchers that it has not reached, and `rest`
-- stands for the other clients.
pub record IsBoard (l : PendingLimits) (rest : Usage) (todo : List Watcher) (b : Board)
    : Type 0 where
  pub hub_booked : IsBooked l rest b.hub b.watchers todo
  pub client_booked : IsBooked l no_usage b.client b.watchers todo
  pub done_queued : All (IsQueued l) b.watchers
  pub todo_queued : All (IsQueued l) todo
  pub hub_entries : b.hub.reserved_entries ≤ l.reserved_queue_entries
  pub hub_bytes : b.hub.reserved_bytes ≤ l.reserved_queue_bytes
  pub client_entries : b.client.reserved_entries ≤ l.reserved_queue_entries_per_client
  pub client_bytes : b.client.reserved_bytes ≤ l.reserved_queue_bytes_per_client
  pub hub_observers : b.hub.observers ≤ l.observers
  pub client_observers : b.client.observers ≤ l.observers_per_client

no_usage-IsCovered : IsCovered no_usage
no_usage-IsCovered = record { entries = omega arith; bytes = omega arith }

shared_tests :
    (l : PendingLimits) (hub client : Usage) (w : Watcher) (size : ℕ)
    → (leb l.observer_queue_entries w.queued_count ≡ false
        → (ltb l.observer_queue_bytes size || ltb (l.observer_queue_bytes - size) w.queued_bytes)
          ≡ false
        → (hub.entries < l.queued_entries)
          × (client.entries < l.queued_entries_per_client)
          × (hub.bytes + size ≤ l.queued_bytes)
          × (client.bytes + size ≤ l.queued_bytes_per_client)
          × (length w.queue < l.observer_queue_entries))
    → refuse_delta l hub client w size ≡ own_refusal l w size
unfolding refuse_delta own_refusal
shared_tests l hub client w size h =
    if_congr (leb l.observer_queue_entries w.queued_count) _ _ _ (λ few.
      if_congr
        (ltb l.observer_queue_bytes size || ltb (l.observer_queue_bytes - size) w.queued_bytes) _ _
        _
        (λ light.
          let (he, ce, hb, cb, room) = h few light in
          if_false (leb l.queued_entries hub.entries) _ _ (ground arith)
          ∙ if_false (leb l.queued_entries_per_client client.entries) _ _ (ground arith)
          ∙ if_false (ltb l.queued_bytes size || ltb (l.queued_bytes - size) hub.bytes) _ _
              (ground arith)
          ∙ if_false
              (ltb l.queued_bytes_per_client size
                || ltb (l.queued_bytes_per_client - size) client.bytes)
              _ _ (ground arith)
          ∙ if_false (leb l.observer_queue_entries (length w.queue)) _ _ (ground arith)))

-- Whether an observer is exhausted by a delta depends on its own queue alone: the bounds that it shares
-- with the other observers of its client and of the hub never refuse a delta, and its channel is never
-- full. For funded limits, in the middle of a publication.
pub refuse_delta-own_refusal :
    (l : PendingLimits) (rest : Usage) (w : Watcher) (todo : List Watcher) (b : Board) (size : ℕ)
    → AreFunded l
    → IsCovered rest
    → IsBoard l rest (w ∷ todo) b
    → refuse_delta l b.hub b.client w size ≡ own_refusal l w size
refuse_delta-own_refusal l rest w todo b size funded covered board =
    let (q, qs) = board.todo_queued in
    shared_tests l b.hub b.client w size (λ few light.
      let n : w.queued_count < l.observer_queue_entries = ground arith in
      let m : w.queued_bytes + size ≤ l.observer_queue_bytes = ground arith in
      let (he, hb) =
        booked_room l rest b.hub b.watchers todo w size board.hub_booked covered board.done_queued
          qs n m in
      let (ce, cb) =
        booked_room l no_usage b.client b.watchers todo w size board.client_booked
          no_usage-IsCovered board.done_queued qs n m in
      (
        omega (arith, funded.entries_cover, board.hub_entries),
        omega (arith, funded.client_entries_cover, board.client_entries),
        omega (arith, funded.bytes_cover, board.hub_bytes),
        omega (arith, funded.client_bytes_cover, board.client_bytes),
        omega (arith, q.counted),
      ))
