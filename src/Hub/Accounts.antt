-- ===== src/Hub/Accounts.antt =====
-- daemon/pending.go: the counters of the hub as sums over its clients, and what one client's share of
-- them is.
use spice_agent.Base.{
  ℕ, ◌+◌, ◌≤◌, ◌≡◌, ap, ◌⊎◌, inl, inr, true, false, if◌then◌else◌, length, List, [], ◌∷◌, none,
  some, arith, All, Bytes, bytes_eq, find_key, put_key, sum_over, sum_over-put_key,
}
use spice_agent.Hub.Types.{PendingLimits, PendingKey, PendingCall, pending_value_bytes}
use spice_agent.Hub.Watchers.{Usage, no_usage}
use spice_agent.Hub.Booking.{IsQueued, IsBooked, IsCovered}
use spice_agent.Hub.Store.{Partition, empty_partition, CallCounts}

-- The bytes of the pending calls.
unfoldable pub call_bytes : List (PendingKey × PendingCall) → ℕ
call_bytes [] = 0
call_bytes ((k, c) ∷ cs) = pending_value_bytes c.value + call_bytes cs

-- What holds of a client's partition by itself.
pub record IsOwn (l : PendingLimits) (p : Partition) : Type 0 where
  pub booked : IsBooked l no_usage p.usage [] p.watchers
  pub queued : All (IsQueued l) p.watchers
  pub entries : p.usage.reserved_entries ≤ l.reserved_queue_entries_per_client
  pub bytes : p.usage.reserved_bytes ≤ l.reserved_queue_bytes_per_client
  pub observers : p.usage.observers ≤ l.observers_per_client
  pub weighed : p.pending_bytes ≡ call_bytes p.pending
  pub few : length p.pending ≤ l.pending_per_client
  pub light : p.pending_bytes ≤ l.pending_bytes_per_client

-- The counters of the hub are the sums over its clients and within the limits.
pub record IsAccounted (l : PendingLimits) (u : Usage) (c : CallCounts)
    (ps : List (Bytes × Partition)) : Type 0 where
  pub owns : All (λ (kp : Bytes × Partition). IsOwn l kp.1) ps
  pub observers : u.observers ≡ sum_over (λ p. p.usage.observers) ps
  pub entries : u.entries ≡ sum_over (λ p. p.usage.entries) ps
  pub bytes : u.bytes ≡ sum_over (λ p. p.usage.bytes) ps
  pub reserved_entries : u.reserved_entries ≡ sum_over (λ p. p.usage.reserved_entries) ps
  pub reserved_bytes : u.reserved_bytes ≡ sum_over (λ p. p.usage.reserved_bytes) ps
  pub count : c.count ≡ sum_over (λ p. length p.pending) ps
  pub call_bytes : c.bytes ≡ sum_over (λ p. p.pending_bytes) ps
  pub few_observers : u.observers ≤ l.observers
  pub few_entries : u.reserved_entries ≤ l.reserved_queue_entries
  pub few_bytes : u.reserved_bytes ≤ l.reserved_queue_bytes
  pub few_calls : c.count ≤ l.pending
  pub light_calls : c.bytes ≤ l.pending_bytes

-- The counters of the hub against one client, where `rest` and `other` stand for the other clients.
pub record IsShare (l : PendingLimits) (rest : Usage) (other : CallCounts) (u : Usage)
    (c : CallCounts) (p : Partition) : Type 0 where
  pub covered : IsCovered rest
  pub own : IsOwn l p
  pub booked : IsBooked l rest u [] p.watchers
  pub few_observers : u.observers ≤ l.observers
  pub few_entries : u.reserved_entries ≤ l.reserved_queue_entries
  pub few_bytes : u.reserved_bytes ≤ l.reserved_queue_bytes
  pub count : c.count ≡ other.count + length p.pending
  pub call_bytes : c.bytes ≡ other.bytes + p.pending_bytes
  pub few_calls : c.count ≤ l.pending
  pub light_calls : c.bytes ≤ l.pending_bytes

-- The partition of a client, or the empty one of a client that has none.
abbrev pub IsPlaced : Bytes → Partition → List (Bytes × Partition) → Type 0
IsPlaced k p ps = (find_key k ps ≡ some p) ⊎ ((find_key k ps ≡ none) × (p ≡ empty_partition))

sum_over-put_new :
    (f : Partition → ℕ) (k : Bytes) (p : Partition) (ps : List (Bytes × Partition))
    → find_key k ps ≡ none
    → sum_over f (put_key k p ps) ≡ sum_over f ps + f p
unfolding find_key put_key sum_over
sum_over-put_new f k p [] h = omega arith
sum_over-put_new f k p ((j, q) ∷ rest) h = ground (arith, sum_over-put_new f k p rest)

-- A client's new partition in a sum.
pub sum_over-placed :
    (f : Partition → ℕ) (k : Bytes) (p p' : Partition) (ps : List (Bytes × Partition))
    → f empty_partition ≡ 0
    → IsPlaced k p ps
    → sum_over f (put_key k p' ps) + f p ≡ sum_over f ps + f p'
sum_over-placed f k p p' ps zero_at (inl found) = sum_over-put_key f k p' p ps found
sum_over-placed f k p p' ps zero_at (inr (absent, new)) =
    omega (arith, sum_over-put_new f k p' ps absent, ap f new)

pub share_le :
    (f : Partition → ℕ) (k : Bytes) (p : Partition) (ps : List (Bytes × Partition))
    → f empty_partition ≡ 0
    → IsPlaced k p ps
    → f p ≤ sum_over f ps
unfolding find_key sum_over
share_le f k p [] zero_at (inl found) = absurd (grind arith)
share_le f k p ps zero_at (inr (absent, new)) = omega (arith, ap f new)
share_le f k p ((j, q) ∷ rest) zero_at (inl found) =
    elim (bytes_eq j k)
        as (λ b. (if b then some q else find_key k rest) ≡ some p → f p ≤ f q + sum_over f rest) [
          | true ↦ λ e. let same : q ≡ p = grind arith in omega (arith, ap f same)
          | false ↦ λ e. omega (arith, share_le f k p rest zero_at (inl e))
        ]
      found
