-- ===== src/Hub/ShareCalls.antt =====
-- daemon/pending.go: a publication, a new call and a finished call keep a client's share of the counters.
use spice_agent.Base.{
  ℕ, suc, ◌+◌, ◌≤◌, ◌<◌, ◌≡◌, refl, ap, true, false, if◌then◌else◌, length, List, [], ◌∷◌, some,
  arith, add64,
}
use spice_agent.Hub.Types.{
  PendingLimits, PendingKey, PendingCall, Pending, Delta, DeltaKind, pending_value_bytes, opened,
  closed,
}
use spice_agent.Hub.Limits.{AreFunded}
use spice_agent.Hub.Watchers.{Usage, no_usage, Watcher}
use spice_agent.Hub.Booking.{IsBooked}
use spice_agent.Hub.Isolation.{IsBoard}
use spice_agent.Hub.Publish.{offer_deltas-IsBoard}
use spice_agent.Hub.Store.{
  Partition, CallCounts, same_key, find_call, delete_call, publish, has_pending_capacity, open_call,
  close_call,
}
use spice_agent.Hub.Accounts.{call_bytes, IsShare}

-- All the watchers are offered, or none is left to be.
flip-IsBooked :
    (l : PendingLimits) (rest u : Usage) (ws : List Watcher)
    → IsBooked l rest u ws []
    → IsBooked l rest u [] ws
flip-IsBooked l rest u ws b = record {
  observers = omega (arith, b.observers);
  entries = omega (arith, b.entries);
  bytes = omega (arith, b.bytes);
  reserved_entries = omega (arith, b.reserved_entries);
  reserved_bytes = omega (arith, b.reserved_bytes);
}

-- The board at the beginning of a publication.
pub IsShare-IsBoard :
    (l : PendingLimits) (rest : Usage) (other : CallCounts) (u : Usage) (c : CallCounts)
    (p : Partition)
    → IsShare l rest other u c p
    → IsBoard l rest p.watchers
        (record { hub = u; client = p.usage; watchers = []; stopping = p.stopping })
IsShare-IsBoard l rest other u c p s = record {
  hub_booked = s.booked;
  client_booked = s.own.booked;
  done_queued = tt;
  todo_queued = s.own.queued;
  hub_entries = s.few_entries;
  hub_bytes = s.few_bytes;
  client_entries = s.own.entries;
  client_bytes = s.own.bytes;
  hub_observers = s.few_observers;
  client_observers = s.own.observers;
}

pub publish-IsShare :
    (l : PendingLimits) (rest : Usage) (other : CallCounts) (u : Usage) (c : CallCounts)
    (p : Partition) (kind : DeltaKind) (value : Pending)
    → AreFunded l
    → IsShare l rest other u c p
    → IsShare l rest other (publish l kind value u p).0 c (publish l kind value u p).1
unfolding publish
publish-IsShare l rest other u c p kind value funded s =
    let start = IsShare-IsBoard l rest other u c p s in
    let delta : Delta = record { revision = add64 p.revision 1; kind = kind; pending = value } in
    let end = offer_deltas-IsBoard l rest delta p.watchers _ funded s.covered start in
    record {
      covered = s.covered;
      own = record {
        booked = flip-IsBooked l no_usage _ _ end.client_booked;
        queued = end.done_queued;
        entries = end.client_entries;
        bytes = end.client_bytes;
        observers = end.client_observers;
        weighed = s.own.weighed;
        few = s.own.few;
        light = s.own.light;
      };
      booked = flip-IsBooked l rest _ _ end.hub_booked;
      few_observers = end.hub_observers;
      few_entries = end.hub_entries;
      few_bytes = end.hub_bytes;
      count = s.count;
      call_bytes = s.call_bytes;
      few_calls = s.few_calls;
      light_calls = s.light_calls;
    }

-- The pending calls of a client and the hub's counters of calls may be replaced together.
with_calls :
    (l : PendingLimits) (rest : Usage) (other : CallCounts) (u : Usage) (c c' : CallCounts)
    (p : Partition) (pending : List (PendingKey × PendingCall)) (bytes : ℕ)
    → bytes ≡ call_bytes pending
    → length pending ≤ l.pending_per_client
    → bytes ≤ l.pending_bytes_per_client
    → c'.count ≡ other.count + length pending
    → c'.bytes ≡ other.bytes + bytes
    → c'.count ≤ l.pending
    → c'.bytes ≤ l.pending_bytes
    → IsShare l rest other u c p
    → IsShare l rest other u c' (record p { pending = pending; pending_bytes = bytes })
with_calls l rest other u c c' p pending bytes weighed few light count sum few_all light_all s =
    record {
      covered = s.covered;
      own = record {
        booked = s.own.booked;
        queued = s.own.queued;
        entries = s.own.entries;
        bytes = s.own.bytes;
        observers = s.own.observers;
        weighed = weighed;
        few = few;
        light = light;
      };
      booked = s.booked;
      few_observers = s.few_observers;
      few_entries = s.few_entries;
      few_bytes = s.few_bytes;
      count = count;
      call_bytes = sum;
      few_calls = few_all;
      light_calls = light_all;
    }

-- What hasPendingCapacity says.
pub record HasCapacity (l : PendingLimits) (c : CallCounts) (p : Partition) (size : ℕ)
    : Type 0 where
  pub calls : c.count < l.pending
  pub client_calls : length p.pending < l.pending_per_client
  pub bytes : c.bytes + size ≤ l.pending_bytes
  pub client_bytes : p.pending_bytes + size ≤ l.pending_bytes_per_client

pub has_pending_capacity-HasCapacity :
    (l : PendingLimits) (c : CallCounts) (p : Partition) (size : ℕ)
    → has_pending_capacity l c p size ≡ true
    → HasCapacity l c p size
unfolding has_pending_capacity
has_pending_capacity-HasCapacity l c p size h = record {
  calls = ground arith;
  client_calls = ground arith;
  bytes = ground arith;
  client_bytes = ground arith;
}

pub open_call-IsShare :
    (l : PendingLimits) (rest : Usage) (other : CallCounts) (call : PendingCall) (u : Usage)
    (c : CallCounts) (p : Partition)
    → AreFunded l
    → HasCapacity l c p (pending_value_bytes call.value)
    → IsShare l rest other u c p
    → IsShare l rest other
        (open_call l call c u p).1
        (open_call l call c u p).0
        (open_call l call c u p).2
unfolding open_call call_bytes
open_call-IsShare l rest other call u c p funded room s =
    publish-IsShare l rest other u _ _ opened call.value funded (
      with_calls l rest other u c _ p _ _ (omega (arith, s.own.weighed))
        (omega (arith, room.client_calls)) (omega (arith, room.client_bytes))
        (omega (arith, s.count)) (omega (arith, s.call_bytes)) (omega (arith, room.calls))
        (omega (arith, room.bytes)) s)

pub delete_call_lem :
    (key : PendingKey) (call : PendingCall) (cs : List (PendingKey × PendingCall))
    → find_call key cs ≡ some call
    → (suc (length (delete_call key cs)) ≡ length cs)
      × (call_bytes (delete_call key cs) + pending_value_bytes call.value ≡ call_bytes cs)
unfolding find_call delete_call call_bytes
delete_call_lem key call [] found = absurd (grind arith)
delete_call_lem key call ((k, x) ∷ rest) found =
    elim (same_key k key)
        as (λ b.
          (if b then some x else find_call key rest) ≡ some call
          → (suc (length (if b then rest else (k, x) ∷ delete_call key rest)) ≡ suc (length rest))
            × (call_bytes (if b then rest else (k, x) ∷ delete_call key rest)
                  + pending_value_bytes call.value
                ≡ pending_value_bytes x.value + call_bytes rest)) [
                  | true ↦ λ e.
                      let same : x ≡ call = grind arith in
                      (refl, omega (arith, ap (λ y. pending_value_bytes y.value) same))
                  | false ↦ λ e.
                      let (n, b) = delete_call_lem key call rest e in (omega arith, omega arith)
                ]
      found

pub close_call-IsShare :
    (l : PendingLimits) (rest : Usage) (other : CallCounts) (key : PendingKey) (call : PendingCall)
    (u : Usage) (c : CallCounts) (p : Partition)
    → AreFunded l
    → find_call key p.pending ≡ some call
    → IsShare l rest other u c p
    → IsShare l rest other
        (close_call l key call c u p).1
        (close_call l key call c u p).0
        (close_call l key call c u p).2
unfolding close_call
close_call-IsShare l rest other key call u c p funded found s =
    let (n, b) = delete_call_lem key call p.pending found in
    publish-IsShare l rest other u _ _ closed call.value funded (
      with_calls l rest other u c _ p _ _ (omega (arith, s.own.weighed)) (omega (arith, s.own.few))
        (omega (arith, s.own.light)) (omega (arith, s.count))
        (omega (arith, s.call_bytes, s.own.weighed)) (omega (arith, s.few_calls))
        (omega (arith, s.light_calls)) s)
