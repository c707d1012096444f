-- ===== src/Hub/Booking.antt =====
-- daemon/pending.go: the counters of the hub and of a client against the watchers that they stand for.
use spice_agent.Base.{
  ℕ, ◌+◌, ◌≤◌, ◌<◌, ◌≡◌, true, length, length-append, List, [], ◌∷◌, ◌++◌, arith, All,
}
use spice_agent.Hub.Types.{PendingLimits, Delta}
use spice_agent.Hub.Watchers.{
  Usage, Watcher, charge, give_back, enqueue, QueuedDelta, WatcherStage, holding, passed_on,
}

-- A sum over watchers.
abbrev pub total : (Watcher → ℕ) → List Watcher → ℕ
total f [] = 0
total f (w ∷ ws) = f w + total f ws

pub total-append :
    (f : Watcher → ℕ) (xs ys : List Watcher) → total f (xs ++ ys) ≡ total f xs + total f ys
total-append f [] ys = omega arith
total-append f (x ∷ xs) ys = omega (arith, total-append f xs ys)

-- An item that left the queue and is not settled yet.
abbrev pub in_flight : WatcherStage → ℕ
in_flight (holding x) = 1
in_flight (passed_on x) = 1
in_flight stage = 0

abbrev pub flight_bytes : WatcherStage → ℕ
flight_bytes (holding x) = x.bytes
flight_bytes (passed_on x) = x.bytes
flight_bytes stage = 0

abbrev pub queue_bytes : List QueuedDelta → ℕ
queue_bytes [] = 0
queue_bytes (x ∷ xs) = x.bytes + queue_bytes xs

-- A watcher of the map: its counters tell its queue and what is in flight, within one queue's bounds.
pub record IsQueued (l : PendingLimits) (w : Watcher) : Type 0 where
  pub is_active : w.active ≡ true
  pub counted : w.queued_count ≡ length w.queue + in_flight w.stage
  pub weighed : w.queued_bytes ≡ queue_bytes w.queue + flight_bytes w.stage
  pub few : w.queued_count ≤ l.observer_queue_entries
  pub light : w.queued_bytes ≤ l.observer_queue_bytes

-- The counters stand for `rest` and the watchers of two lists.
pub record IsBooked (l : PendingLimits) (rest u : Usage) (done todo : List Watcher) : Type 0 where
  pub observers : u.observers ≡ rest.observers + length done + length todo
  pub entries :
      u.entries ≡ rest.entries + total (λ w. w.queued_count) done + total (λ w. w.queued_count) todo
  pub bytes :
      u.bytes ≡ rest.bytes + total (λ w. w.queued_bytes) done + total (λ w. w.queued_bytes) todo
  pub reserved_entries :
      u.reserved_entries
      ≡ rest.reserved_entries
        + total (λ w. l.observer_queue_entries) done
        + total (λ w. l.observer_queue_entries) todo
  pub reserved_bytes :
      u.reserved_bytes
      ≡ rest.reserved_bytes
        + total (λ w. l.observer_queue_bytes) done
        + total (λ w. l.observer_queue_bytes) todo

-- What is queued is within what is reserved.
pub record IsCovered (u : Usage) : Type 0 where
  pub entries : u.entries ≤ u.reserved_entries
  pub bytes : u.bytes ≤ u.reserved_bytes

pub total-le_entries :
    (l : PendingLimits) (ws : List Watcher)
    → All (IsQueued l) ws
    → total (λ w. w.queued_count) ws ≤ total (λ w. l.observer_queue_entries) ws
total-le_entries l [] all = omega arith
total-le_entries l (w ∷ ws) (q, all) = omega (arith, q.few, total-le_entries l ws all)

pub total-le_bytes :
    (l : PendingLimits) (ws : List Watcher)
    → All (IsQueued l) ws
    → total (λ w. w.queued_bytes) ws ≤ total (λ w. l.observer_queue_bytes) ws
total-le_bytes l [] all = omega arith
total-le_bytes l (w ∷ ws) (q, all) = omega (arith, q.light, total-le_bytes l ws all)

-- A watcher that takes a delta moves over with its item counted.
pub charge-IsBooked :
    (l : PendingLimits) (rest u : Usage) (done todo : List Watcher) (w : Watcher) (d : Delta)
    (size : ℕ)
    → IsBooked l rest u done (w ∷ todo)
    → IsBooked l rest (charge size u) (done ++ enqueue d size w ∷ []) todo
unfolding charge enqueue
charge-IsBooked l rest u done todo w d size b =
    let last = enqueue d size w ∷ [] in
    record {
      observers = omega (arith, b.observers, length-append done last);
      entries = omega (arith, b.entries, total-append (λ x. x.queued_count) done last);
      bytes = omega (arith, b.bytes, total-append (λ x. x.queued_bytes) done last);
      reserved_entries =
          omega (arith, b.reserved_entries, total-append (λ x. l.observer_queue_entries) done last);
      reserved_bytes =
          omega (arith, b.reserved_bytes, total-append (λ x. l.observer_queue_bytes) done last);
    }

-- A watcher that is finished leaves with all that it stood for.
pub give_back-IsBooked :
    (l : PendingLimits) (rest u : Usage) (done todo : List Watcher) (w : Watcher)
    → IsBooked l rest u done (w ∷ todo)
    → IsBooked l rest (give_back l w u) done todo
unfolding give_back
give_back-IsBooked l rest u done todo w b = record {
  observers = omega (arith, b.observers);
  entries = omega (arith, b.entries);
  bytes = omega (arith, b.bytes);
  reserved_entries = omega (arith, b.reserved_entries);
  reserved_bytes = omega (arith, b.reserved_bytes);
}

-- The two lists may be joined, and the first watchers of the second counted with the first.
pub join-IsBooked :
    (l : PendingLimits) (rest u : Usage) (done todo : List Watcher)
    → IsBooked l rest u done todo
    → IsBooked l rest u [] (done ++ todo)
join-IsBooked l rest u done todo b = record {
  observers = omega (arith, b.observers, length-append done todo);
  entries = omega (arith, b.entries, total-append (λ x. x.queued_count) done todo);
  bytes = omega (arith, b.bytes, total-append (λ x. x.queued_bytes) done todo);
  reserved_entries =
      omega (arith, b.reserved_entries, total-append (λ x. l.observer_queue_entries) done todo);
  reserved_bytes =
      omega (arith, b.reserved_bytes, total-append (λ x. l.observer_queue_bytes) done todo);
}

pub split-IsBooked :
    (l : PendingLimits) (rest u : Usage) (done todo : List Watcher)
    → IsBooked l rest u [] (done ++ todo)
    → IsBooked l rest u done todo
split-IsBooked l rest u done todo b = record {
  observers = omega (arith, b.observers, length-append done todo);
  entries = omega (arith, b.entries, total-append (λ x. x.queued_count) done todo);
  bytes = omega (arith, b.bytes, total-append (λ x. x.queued_bytes) done todo);
  reserved_entries =
      omega (arith, b.reserved_entries, total-append (λ x. l.observer_queue_entries) done todo);
  reserved_bytes =
      omega (arith, b.reserved_bytes, total-append (λ x. l.observer_queue_bytes) done todo);
}

-- What is booked over a covered rest is covered, with room for one more item of a watcher.
pub booked_room :
    (l : PendingLimits) (rest u : Usage) (done todo : List Watcher) (w : Watcher) (size : ℕ)
    → IsBooked l rest u done (w ∷ todo)
    → IsCovered rest
    → All (IsQueued l) done
    → All (IsQueued l) todo
    → w.queued_count < l.observer_queue_entries
    → w.queued_bytes + size ≤ l.observer_queue_bytes
    → (u.entries < u.reserved_entries) × (u.bytes + size ≤ u.reserved_bytes)
booked_room l rest u done todo w size b c qd qt few light = (
  omega (
    arith,
    b.entries,
    b.reserved_entries,
    c.entries,
    total-le_entries l done qd,
    total-le_entries l todo qt,
  ),
  omega (
    arith,
    b.bytes,
    b.reserved_bytes,
    c.bytes,
    total-le_bytes l done qd,
    total-le_bytes l todo qt,
  ),
)

pub IsBooked-IsCovered :
    (l : PendingLimits) (rest u : Usage) (done todo : List Watcher)
    → IsBooked l rest u done todo
    → IsCovered rest
    → All (IsQueued l) done
    → All (IsQueued l) todo
    → IsCovered u
IsBooked-IsCovered l rest u done todo b c qd qt = record {
  entries = omega (
    arith,
    b.entries,
    b.reserved_entries,
    c.entries,
    total-le_entries l done qd,
    total-le_entries l todo qt,
  );
  bytes = omega (
    arith,
    b.bytes,
    b.reserved_bytes,
    c.bytes,
    total-le_bytes l done qd,
    total-le_bytes l todo qt,
  );
}
