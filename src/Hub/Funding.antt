-- ===== src/Hub/Funding.antt =====
-- daemon/pending.go, Subscribe: valid limits reserve a full queue for every observer that the bounds allow.
use native.Mathlib.Nat.{mul-le-mul_right}
use spice_agent.Base.{
  ℕ, suc, ◌+◌, ◌-◌, ◌*◌, ◌≤◌, ◌<◌, ◌≡◌, sym, ap, ◌∙◌, false, length, ltb, List, [], ◌∷◌, arith, All,
  Bytes, ok, sum_over,
}
use spice_agent.Hub.Types.{PendingLimits}
use spice_agent.Hub.Limits.{validate_pending_limits, validate_pending_limits-AreFunded}
use spice_agent.Hub.Watchers.{Usage, Watcher, over_reserved}
use spice_agent.Hub.Booking.{total}
use spice_agent.Hub.Store.{Partition, CallCounts}
use spice_agent.Hub.Accounts.{IsOwn, IsAccounted, IsPlaced}
use spice_agent.Hub.Shares.{OwnOf, placed-IsOwn}

total-constant : (n : ℕ) (ws : List Watcher) → total (λ w. n) ws ≡ length ws * n
total-constant n [] = omega arith
total-constant n (w ∷ ws) = grind (arith, total-constant n ws)

sum_over-product :
    (l : PendingLimits) (f : Partition → ℕ) (n : ℕ) (ps : List (Bytes × Partition))
    → ((p : Partition) → IsOwn l p → f p ≡ p.usage.observers * n)
    → All (OwnOf l) ps
    → sum_over f ps ≡ sum_over (λ p. p.usage.observers) ps * n
unfolding sum_over
sum_over-product l f n [] same all = omega arith
sum_over-product l f n ((j, q) ∷ rest) same (own, all) =
    grind (arith, same q own, sum_over-product l f n rest same all)

-- What a client has reserved is its observers' queues.
own_entries :
    (l : PendingLimits) (p : Partition)
    → IsOwn l p
    → p.usage.reserved_entries ≡ p.usage.observers * l.observer_queue_entries
own_entries l p own =
    let n : p.usage.observers ≡ length p.watchers = omega (arith, own.booked.observers) in
    omega (
      arith,
      own.booked.reserved_entries,
      total-constant l.observer_queue_entries p.watchers,
      ap (λ m. m * l.observer_queue_entries) n,
    )

own_bytes :
    (l : PendingLimits) (p : Partition)
    → IsOwn l p
    → p.usage.reserved_bytes ≡ p.usage.observers * l.observer_queue_bytes
own_bytes l p own =
    let n : p.usage.observers ≡ length p.watchers = omega (arith, own.booked.observers) in
    omega (
      arith,
      own.booked.reserved_bytes,
      total-constant l.observer_queue_bytes p.watchers,
      ap (λ m. m * l.observer_queue_bytes) n,
    )

-- One more queue has room.
room_for :
    (n bound q reserved limit : ℕ)
    → n < bound
    → bound * q ≤ limit
    → reserved ≡ n * q
    → ltb (limit - q) reserved ≡ false
room_for n bound q reserved limit few fits same =
    let more : suc n * q ≤ bound * q = mul-le-mul_right q few in
    let step : suc n * q ≡ n * q + q = grind arith in ground (arith, more, step)

-- Where the limits are valid and the counters true, the test of Subscribe on the reserved queue space
-- refuses no observer that the bounds on the number of observers let through.
pub over_reserved-false :
    (l : PendingLimits) (u : Usage) (c : CallCounts) (client : Bytes) (p : Partition)
    (ps : List (Bytes × Partition))
    → validate_pending_limits l ≡ ok tt
    → IsAccounted l u c ps
    → IsPlaced client p ps
    → u.observers < l.observers
    → length p.watchers < l.observers_per_client
    → over_reserved l u p.usage ≡ false
unfolding over_reserved
over_reserved-false l u c client p ps valid a place few few_here =
    let funded = validate_pending_limits-AreFunded l valid in
    let own = placed-IsOwn l client p ps a.owns place in
    let entries : u.reserved_entries ≡ u.observers * l.observer_queue_entries =
      a.reserved_entries
      ∙ sum_over-product l (λ q. q.usage.reserved_entries) l.observer_queue_entries ps
          (own_entries l) a.owns
      ∙ ap (λ n. n * l.observer_queue_entries) (sym a.observers) in
    let bytes : u.reserved_bytes ≡ u.observers * l.observer_queue_bytes =
      a.reserved_bytes
      ∙ sum_over-product l (λ q. q.usage.reserved_bytes) l.observer_queue_bytes ps (own_bytes l)
          a.owns
      ∙ ap (λ n. n * l.observer_queue_bytes) (sym a.observers) in
    let here : p.usage.observers < l.observers_per_client = omega (arith, own.booked.observers) in
    let one = room_for u.observers l.observers _ _ _ few funded.all_entries entries in
    let two =
      room_for p.usage.observers l.observers_per_client _ _ _ here funded.all_client_entries
        (own_entries l p own) in
    let three = room_for u.observers l.observers _ _ _ few funded.all_bytes bytes in
    let four =
      room_for p.usage.observers l.observers_per_client _ _ _ here funded.all_client_bytes
        (own_bytes l p own) in
    ground arith
