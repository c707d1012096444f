-- ===== src/Hub/Publish.antt =====
-- daemon/pending.go, publishLocked: a publication keeps the counters true to the watchers and within the
-- limits.
use spice_agent.Base.{
  ℕ, ◌+◌, ◌-◌, ◌≤◌, ◌<◌, ◌≡◌, sym, ◌||◌, if_intro, ltb, leb, length-append, List, [], ◌∷◌, ◌++◌,
  Option, none, some, arith, All-append,
}
use spice_agent.Hub.Types.{PendingLimits, Delta, Exhaustion, pending_delta_bytes}
use spice_agent.Hub.Limits.{AreFunded}
use spice_agent.Hub.Watchers.{
  Usage, no_usage, Watcher, charge, give_back, enqueue, QueuedDelta, Board, offer_delta,
  offer_deltas,
}
use spice_agent.Hub.Booking.{IsQueued, IsCovered, charge-IsBooked, give_back-IsBooked, queue_bytes}
use spice_agent.Hub.Isolation.{own_refusal, IsBoard, refuse_delta-own_refusal}

queue_bytes-append :
    (xs : List QueuedDelta) (x : QueuedDelta)
    → queue_bytes (xs ++ x ∷ []) ≡ queue_bytes xs + x.bytes
queue_bytes-append [] x = omega arith
queue_bytes-append (y ∷ ys) x = omega (arith, queue_bytes-append ys x)

own_room :
    (l : PendingLimits) (w : Watcher) (size : ℕ)
    → own_refusal l w size ≡ none
    → (w.queued_count < l.observer_queue_entries) × (w.queued_bytes + size ≤ l.observer_queue_bytes)
unfolding own_refusal
own_room l w size =
    let Claim : Option Exhaustion → Type 0 = λ o.
      o ≡ none
      → (w.queued_count < l.observer_queue_entries)
        × (w.queued_bytes + size ≤ l.observer_queue_bytes) in
    if_intro Claim (leb l.observer_queue_entries w.queued_count) (λ _ h. absurd (grind arith))
      (λ few.
        if_intro Claim
          (ltb l.observer_queue_bytes size || ltb (l.observer_queue_bytes - size) w.queued_bytes)
          (λ _ h. absurd (grind arith)) (λ light h. (ground arith, ground arith)))

pub enqueue-IsQueued :
    (l : PendingLimits) (d : Delta) (size : ℕ) (w : Watcher)
    → IsQueued l w
    → w.queued_count < l.observer_queue_entries
    → w.queued_bytes + size ≤ l.observer_queue_bytes
    → IsQueued l (enqueue d size w)
unfolding enqueue
enqueue-IsQueued l d size w q few light =
    let item : QueuedDelta = record { delta = d; bytes = size } in
    record {
      is_active = q.is_active;
      counted = omega (arith, q.counted, length-append w.queue (item ∷ []));
      weighed = omega (arith, q.weighed, queue_bytes-append w.queue item);
      few = omega arith;
      light = omega arith;
    }

pub offer_delta-IsBoard :
    (l : PendingLimits) (rest : Usage) (d : Delta) (w : Watcher) (todo : List Watcher) (b : Board)
    (reason : Option Exhaustion)
    → own_refusal l w (pending_delta_bytes d) ≡ reason
    → IsBoard l rest (w ∷ todo) b
    → IsBoard l rest todo (offer_delta l d w reason b)
unfolding offer_delta charge give_back
offer_delta-IsBoard l rest d w todo b none own board =
    let (few, light) = own_room l w (pending_delta_bytes d) own in
    let (q, qs) = board.todo_queued in
    record {
      hub_booked = charge-IsBooked l rest b.hub b.watchers todo w d _ board.hub_booked;
      client_booked = charge-IsBooked l no_usage b.client b.watchers todo w d _ board.client_booked;
      done_queued =
          All-append (IsQueued l) b.watchers _ board.done_queued
            (enqueue-IsQueued l d (pending_delta_bytes d) w q few light, tt);
      todo_queued = qs;
      hub_entries = board.hub_entries;
      hub_bytes = board.hub_bytes;
      client_entries = board.client_entries;
      client_bytes = board.client_bytes;
      hub_observers = board.hub_observers;
      client_observers = board.client_observers;
    }
offer_delta-IsBoard l rest d w todo b (some x) own board = record {
  hub_booked = give_back-IsBooked l rest b.hub b.watchers todo w board.hub_booked;
  client_booked = give_back-IsBooked l no_usage b.client b.watchers todo w board.client_booked;
  done_queued = board.done_queued;
  todo_queued = board.todo_queued.1;
  hub_entries = omega (arith, board.hub_entries);
  hub_bytes = omega (arith, board.hub_bytes);
  client_entries = omega (arith, board.client_entries);
  client_bytes = omega (arith, board.client_bytes);
  hub_observers = omega (arith, board.hub_observers);
  client_observers = omega (arith, board.client_observers);
}

pub offer_deltas-IsBoard :
    (l : PendingLimits) (rest : Usage) (d : Delta) (todo : List Watcher) (b : Board)
    → AreFunded l
    → IsCovered rest
    → IsBoard l rest todo b
    → IsBoard l rest [] (offer_deltas l d todo b)
unfolding offer_deltas
offer_deltas-IsBoard l rest d [] b funded covered board = board
offer_deltas-IsBoard l rest d (w ∷ ws) b funded covered board =
    let own = refuse_delta-own_refusal l rest w ws b (pending_delta_bytes d) funded covered board in
    offer_deltas-IsBoard l rest d ws _ funded covered
      (offer_delta-IsBoard l rest d w ws b _ (sym own) board)
