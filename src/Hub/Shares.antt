-- ===== src/Hub/Shares.antt =====
-- daemon/pending.go: from the counters of the hub to one client's share of them, and back after a call on
-- that client.
use spice_agent.Base.{
  ℕ, ◌+◌, ◌-◌, ◌≤◌, ◌≡◌, refl, sym, ap, subst, inl, inr, true, false, if◌then◌else◌, if_intro,
  length, List, [], ◌∷◌, some, arith, All, Bytes, bytes_eq, find_key, put_key, sum_over,
}
use spice_agent.Hub.Types.{PendingLimits}
use spice_agent.Hub.Watchers.{Usage, no_usage}
use spice_agent.Hub.Booking.{IsCovered, IsBooked-IsCovered}
use spice_agent.Hub.Store.{Partition, empty_partition, CallCounts}
use spice_agent.Hub.Accounts.{
  call_bytes, IsOwn, IsAccounted, IsShare, IsPlaced, sum_over-placed, share_le,
}

empty_partition-IsOwn : (l : PendingLimits) → IsOwn l empty_partition
unfolding call_bytes
empty_partition-IsOwn l = record {
  booked = record {
    observers = refl;
    entries = refl;
    bytes = refl;
    reserved_entries = refl;
    reserved_bytes = refl;
  };
  queued = tt;
  entries = omega arith;
  bytes = omega arith;
  observers = omega arith;
  weighed = refl;
  few = omega arith;
  light = omega arith;
}

abbrev pub OwnOf : PendingLimits → Bytes × Partition → Type 0
OwnOf l kp = IsOwn l kp.1

pub find_key-IsOwn :
    (l : PendingLimits) (k : Bytes) (p : Partition) (ps : List (Bytes × Partition))
    → All (OwnOf l) ps
    → find_key k ps ≡ some p
    → IsOwn l p
unfolding find_key
find_key-IsOwn l k p [] all h = absurd (grind arith)
find_key-IsOwn l k p ((j, q) ∷ rest) (own, all) h =
    elim (bytes_eq j k) as (λ b. (if b then some q else find_key k rest) ≡ some p → IsOwn l p) [
      | true ↦ λ e. let same : q ≡ p = grind arith in subst (IsOwn l) same own
      | false ↦ λ e. find_key-IsOwn l k p rest all e
    ]
      h

pub placed-IsOwn :
    (l : PendingLimits) (k : Bytes) (p : Partition) (ps : List (Bytes × Partition))
    → All (OwnOf l) ps
    → IsPlaced k p ps
    → IsOwn l p
placed-IsOwn l k p ps all (inl found) = find_key-IsOwn l k p ps all found
placed-IsOwn l k p ps all (inr (absent, new)) = subst (IsOwn l) (sym new) (empty_partition-IsOwn l)

put_key-IsOwn :
    (l : PendingLimits) (k : Bytes) (p : Partition) (ps : List (Bytes × Partition))
    → All (OwnOf l) ps
    → IsOwn l p
    → All (OwnOf l) (put_key k p ps)
unfolding put_key
put_key-IsOwn l k p [] all own = (own, tt)
put_key-IsOwn l k p ((j, q) ∷ rest) (first, all) own =
    if_intro (All (OwnOf l)) (bytes_eq j k) (λ _. (own, all))
      (λ _. (first, put_key-IsOwn l k p rest all own))

own-IsCovered : (l : PendingLimits) (p : Partition) → IsOwn l p → IsCovered p.usage
own-IsCovered l p own =
    IsBooked-IsCovered l no_usage p.usage [] p.watchers own.booked
      (record { entries = omega arith; bytes = omega arith }) tt own.queued

sum_over-le :
    (l : PendingLimits) (f g : Partition → ℕ) (ps : List (Bytes × Partition))
    → ((p : Partition) → IsOwn l p → f p ≤ g p)
    → All (OwnOf l) ps
    → sum_over f ps ≤ sum_over g ps
unfolding sum_over
sum_over-le l f g [] le all = omega arith
sum_over-le l f g ((j, q) ∷ rest) le (own, all) =
    omega (arith, le q own, sum_over-le l f g rest le all)

-- The others are covered too.
found_le :
    (l : PendingLimits) (f g : Partition → ℕ) (k : Bytes) (p : Partition)
    (ps : List (Bytes × Partition))
    → ((q : Partition) → IsOwn l q → f q ≤ g q)
    → All (OwnOf l) ps
    → find_key k ps ≡ some p
    → sum_over f ps + g p ≤ sum_over g ps + f p
unfolding find_key sum_over
found_le l f g k p [] le all found = absurd (grind arith)
found_le l f g k p ((j, q) ∷ rest) le (own, all) found =
    elim (bytes_eq j k)
        as (λ b.
          (if b then some q else find_key k rest) ≡ some p
          → (f q + sum_over f rest) + g p ≤ (g q + sum_over g rest) + f p) [
            | true ↦ λ e.
                let same : q ≡ p = grind arith in
                omega (arith, ap f same, ap g same, sum_over-le l f g rest le all)
            | false ↦ λ e. omega (arith, le q own, found_le l f g k p rest le all e)
          ]
      found

others_le :
    (l : PendingLimits) (f g : Partition → ℕ) (k : Bytes) (p : Partition)
    (ps : List (Bytes × Partition))
    → ((q : Partition) → IsOwn l q → f q ≤ g q)
    → f empty_partition ≡ 0
    → g empty_partition ≡ 0
    → All (OwnOf l) ps
    → IsPlaced k p ps
    → sum_over f ps + g p ≤ sum_over g ps + f p
others_le l f g k p ps le fz gz all (inl found) = found_le l f g k p ps le all found
others_le l f g k p ps le fz gz all (inr (absent, new)) =
    omega (arith, ap f new, ap g new, fz, gz, sum_over-le l f g ps le all)

-- The counters without those of a client.
abbrev pub rest_of : Usage → Usage → Usage
rest_of u v = record {
  observers = u.observers - v.observers;
  entries = u.entries - v.entries;
  bytes = u.bytes - v.bytes;
  reserved_entries = u.reserved_entries - v.reserved_entries;
  reserved_bytes = u.reserved_bytes - v.reserved_bytes;
}

abbrev pub other_calls : CallCounts → Partition → CallCounts
other_calls c p = record { count = c.count - length p.pending; bytes = c.bytes - p.pending_bytes }

pub share :
    (l : PendingLimits) (u : Usage) (c : CallCounts) (k : Bytes) (p : Partition)
    (ps : List (Bytes × Partition))
    → IsAccounted l u c ps
    → IsPlaced k p ps
    → IsShare l (rest_of u p.usage) (other_calls c p) u c p
share l u c k p ps a place =
    let own = placed-IsOwn l k p ps a.owns place in
    let o = share_le (λ q. q.usage.observers) k p ps refl place in
    let e = share_le (λ q. q.usage.entries) k p ps refl place in
    let b = share_le (λ q. q.usage.bytes) k p ps refl place in
    let re = share_le (λ q. q.usage.reserved_entries) k p ps refl place in
    let rb = share_le (λ q. q.usage.reserved_bytes) k p ps refl place in
    let n = share_le (λ q. length q.pending) k p ps refl place in
    let m = share_le (λ q. q.pending_bytes) k p ps refl place in
    let ce =
      others_le l (λ q. q.usage.entries) (λ q. q.usage.reserved_entries) k p ps
        (λ q w. (own-IsCovered l q w).entries) refl refl a.owns place in
    let cb =
      others_le l (λ q. q.usage.bytes) (λ q. q.usage.reserved_bytes) k p ps
        (λ q w. (own-IsCovered l q w).bytes) refl refl a.owns place in
    let mine = own.booked in
    record {
      covered = record {
        entries = omega (arith, a.entries, a.reserved_entries);
        bytes = omega (arith, a.bytes, a.reserved_bytes);
      };
      own = own;
      booked = record {
        observers = omega (arith, a.observers, mine.observers);
        entries = omega (arith, a.entries, mine.entries);
        bytes = omega (arith, a.bytes, mine.bytes);
        reserved_entries = omega (arith, a.reserved_entries, mine.reserved_entries);
        reserved_bytes = omega (arith, a.reserved_bytes, mine.reserved_bytes);
      };
      few_observers = a.few_observers;
      few_entries = a.few_entries;
      few_bytes = a.few_bytes;
      count = omega (arith, a.count);
      call_bytes = omega (arith, a.call_bytes);
      few_calls = a.few_calls;
      light_calls = a.light_calls;
    }

-- Back to the hub, after a call on one client.
pub unshare :
    (l : PendingLimits) (u u' : Usage) (c c' : CallCounts) (k : Bytes) (p p' : Partition)
    (ps : List (Bytes × Partition))
    → IsAccounted l u c ps
    → IsPlaced k p ps
    → IsShare l (rest_of u p.usage) (other_calls c p) u' c' p'
    → IsAccounted l u' c' (put_key k p' ps)
unshare l u u' c c' k p p' ps a place s =
    let before = share l u c k p ps a place in
    let was = before.booked in
    let is = s.booked in
    let old = before.own.booked in
    let now = s.own.booked in
    let o = sum_over-placed (λ q. q.usage.observers) k p p' ps refl place in
    let e = sum_over-placed (λ q. q.usage.entries) k p p' ps refl place in
    let b = sum_over-placed (λ q. q.usage.bytes) k p p' ps refl place in
    let re = sum_over-placed (λ q. q.usage.reserved_entries) k p p' ps refl place in
    let rb = sum_over-placed (λ q. q.usage.reserved_bytes) k p p' ps refl place in
    let n = sum_over-placed (λ q. length q.pending) k p p' ps refl place in
    let m = sum_over-placed (λ q. q.pending_bytes) k p p' ps refl place in
    record {
      owns = put_key-IsOwn l k p' ps a.owns s.own;
      observers =
          omega (arith, a.observers, was.observers, is.observers, old.observers, now.observers);
      entries = omega (arith, a.entries, was.entries, is.entries, old.entries, now.entries);
      bytes = omega (arith, a.bytes, was.bytes, is.bytes, old.bytes, now.bytes);
      reserved_entries = omega (
        arith, a.reserved_entries, was.reserved_entries, is.reserved_entries, old.reserved_entries,
        now.reserved_entries,
      );
      reserved_bytes = omega (
        arith, a.reserved_bytes, was.reserved_bytes, is.reserved_bytes, old.reserved_bytes,
        now.reserved_bytes,
      );
      count = omega (arith, a.count, before.count, s.count);
      call_bytes = omega (arith, a.call_bytes, before.call_bytes, s.call_bytes);
      few_observers = s.few_observers;
      few_entries = s.few_entries;
      few_bytes = s.few_bytes;
      few_calls = s.few_calls;
      light_calls = s.light_calls;
    }
