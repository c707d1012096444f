-- ===== src/Hub/ShareDeliveries.antt =====
-- daemon/pending.go: the stages of a delivery keep a client's share of the counters.
use spice_agent.Base.{
  ◌≡◌, refl, ap, if◌then◌else◌, if_intro, length, List, [], ◌∷◌, Option, none, some, arith,
  All-append,
}
use spice_agent.Hub.Types.{PendingLimits}
use spice_agent.Hub.Watchers.{
  Usage, no_usage, Watcher, refund, delivered_at, deliver_watcher, deliver_watcher_at, WatcherStage,
  WatcherReady, selecting, holding, passed_on, returned, stop_closed, queue_ready, consumer_ready,
  take_item, return_watcher, mark_delivered, QueuedDelta,
}
use spice_agent.Hub.Booking.{
  IsQueued, IsBooked, join-IsBooked, in_flight, flight_bytes, queue_bytes,
}
use spice_agent.Hub.Store.{Partition, CallCounts}
use spice_agent.Hub.Accounts.{IsShare}
use spice_agent.Hub.Observing.{Found, deliver_found}
use spice_agent.Hub.ShareWatchers.{with_watchers, IsSplit, around, found-IsBooked}

-- A stage of a delivery, for the watcher and for the counters that book it.
abbrev Delivers : PendingLimits → Watcher → WatcherStage → WatcherReady → Type 0
Delivers l w stage ready =
    IsQueued l (deliver_watcher_at stage ready w)
    × ((rest u : Usage) (before after : List Watcher)
        → IsBooked l rest u before (w ∷ after)
        → IsBooked l rest (delivered_at stage u) before (deliver_watcher_at stage ready w ∷ after))

take_item_lem :
    (l : PendingLimits) (w : Watcher) (queue : List QueuedDelta)
    → w.queue ≡ queue
    → w.stage ≡ selecting
    → IsQueued l w
    → IsQueued l (take_item w queue)
      × ((rest u : Usage) (before after : List Watcher)
          → IsBooked l rest u before (w ∷ after)
          → IsBooked l rest u before (take_item w queue ∷ after))
unfolding take_item
take_item_lem l w [] same at q = (q, λ rest u before after b. b)
take_item_lem l w (x ∷ xs) same at q =
    let flight = ap in_flight at in
    let weight = ap flight_bytes at in
    (
      record {
        is_active = q.is_active;
        counted = omega (arith, q.counted, ap length same);
        weighed = omega (arith, q.weighed, ap queue_bytes same);
        few = q.few;
        light = q.light;
      },
      λ rest u before after b. record {
        observers = b.observers;
        entries = b.entries;
        bytes = b.bytes;
        reserved_entries = b.reserved_entries;
        reserved_bytes = b.reserved_bytes;
      },
    )

same-IsBooked :
    (l : PendingLimits) (rest u : Usage) (before after : List Watcher) (w w' : Watcher)
    → w'.queued_count ≡ w.queued_count
    → w'.queued_bytes ≡ w.queued_bytes
    → IsBooked l rest u before (w ∷ after)
    → IsBooked l rest u before (w' ∷ after)
same-IsBooked l rest u before after w w' count bytes b = record {
  observers = b.observers;
  entries = omega (arith, b.entries);
  bytes = omega (arith, b.bytes);
  reserved_entries = b.reserved_entries;
  reserved_bytes = b.reserved_bytes;
}

return_watcher_lem :
    (l : PendingLimits) (w : Watcher) (stage : WatcherStage)
    → IsQueued l w
    → IsQueued l (if w.active then w else return_watcher w)
      × ((rest u : Usage) (before after : List Watcher)
          → IsBooked l rest u before (w ∷ after)
          → IsBooked l rest u before ((if w.active then w else return_watcher w) ∷ after))
return_watcher_lem l w stage q =
    if_intro
      (λ x.
        IsQueued l x
        × ((rest u : Usage) (before after : List Watcher)
            → IsBooked l rest u before (w ∷ after)
            → IsBooked l rest u before (x ∷ after)))
      w.active (λ _. (q, λ rest u before after b. b))
      (λ stopped. absurd (grind (arith, q.is_active)))

mark_delivered_lem :
    (l : PendingLimits) (w : Watcher) (x : QueuedDelta)
    → w.stage ≡ passed_on x
    → IsQueued l w
    → IsQueued l (mark_delivered x w)
      × ((rest u : Usage) (before after : List Watcher)
          → IsBooked l rest u before (w ∷ after)
          → IsBooked l rest (refund x.bytes u) before (mark_delivered x w ∷ after))
unfolding mark_delivered refund
mark_delivered_lem l w x at q =
    let flight = ap in_flight at in
    let weight = ap flight_bytes at in
    if_intro
      (λ y.
        IsQueued l y
        × ((rest u : Usage) (before after : List Watcher)
            → IsBooked l rest u before (w ∷ after)
            → IsBooked l rest (refund x.bytes u) before (y ∷ after)))
      w.active
      (λ _. (
        record {
          is_active = q.is_active;
          counted = omega (arith, q.counted);
          weighed = omega (arith, q.weighed);
          few = omega (arith, q.few);
          light = omega (arith, q.light);
        },
        λ rest u before after b. record {
          observers = b.observers;
          entries = omega (arith, b.entries, q.counted);
          bytes = omega (arith, b.bytes, q.weighed);
          reserved_entries = b.reserved_entries;
          reserved_bytes = b.reserved_bytes;
        },
      ))
      (λ stopped. absurd (grind (arith, q.is_active)))

deliver_watcher_lem :
    (l : PendingLimits) (w : Watcher) (stage : WatcherStage) (ready : WatcherReady)
    → w.stage ≡ stage
    → IsQueued l w
    → Delivers l w stage ready
unfolding deliver_watcher_at delivered_at
deliver_watcher_lem l w selecting stop_closed at q = return_watcher_lem l w selecting q
deliver_watcher_lem l w selecting queue_ready at q = take_item_lem l w w.queue refl at q
deliver_watcher_lem l w selecting consumer_ready at q = (q, λ rest u before after b. b)
deliver_watcher_lem l w (holding x) stop_closed at q = return_watcher_lem l w selecting q
deliver_watcher_lem l w (holding x) queue_ready at q = (q, λ rest u before after b. b)
deliver_watcher_lem l w (holding x) consumer_ready at q = (
  record {
    is_active = q.is_active;
    counted = omega (arith, q.counted, ap in_flight at);
    weighed = omega (arith, q.weighed, ap flight_bytes at);
    few = q.few;
    light = q.light;
  },
  λ rest u before after b. same-IsBooked l rest u before after w _ refl refl b,
)
deliver_watcher_lem l w (passed_on x) ready at q = mark_delivered_lem l w x at q
deliver_watcher_lem l w returned ready at q = (q, λ rest u before after b. b)

refund_le :
    (stage : WatcherStage) (u : Usage)
    → ((delivered_at stage u).observers ≡ u.observers)
      × ((delivered_at stage u).reserved_entries ≡ u.reserved_entries)
      × ((delivered_at stage u).reserved_bytes ≡ u.reserved_bytes)
unfolding delivered_at refund
refund_le selecting u = (refl, refl, refl)
refund_le (holding x) u = (refl, refl, refl)
refund_le (passed_on x) u = (refl, refl, refl)
refund_le returned u = (refl, refl, refl)

pub deliver_found-IsShare :
    (l : PendingLimits) (rest : Usage) (other : CallCounts) (ready : WatcherReady)
    (f : Option Found) (u : Usage) (c : CallCounts) (p : Partition)
    → IsSplit p.watchers f
    → IsShare l rest other u c p
    → IsShare l rest other (deliver_found ready f (u, p)).0 c (deliver_found ready f (u, p)).1
unfolding deliver_found deliver_watcher
deliver_found-IsShare l rest other ready none u c p split s = s
deliver_found-IsShare l rest other ready (some f) u c p split s =
    let (before, mine, after) = around l f p.watchers split s.own.queued in
    let w = f.watcher in
    let (kept, booked) = deliver_watcher_lem l w w.stage ready refl mine in
    let (o, e, b) = refund_le w.stage u in
    let (po, pe, pb) = refund_le w.stage p.usage in
    with_watchers l rest other u _ c p _ refl refl
      (join-IsBooked l rest _ f.before _
        (booked rest u f.before f.after (found-IsBooked l rest u f p.watchers split s.booked)))
      (join-IsBooked l no_usage _ f.before _ (
        booked no_usage p.usage f.before f.after
          (found-IsBooked l no_usage p.usage f p.watchers split s.own.booked)))
      (All-append (IsQueued l) f.before _ before (kept, after))
      (
        omega (arith, o, s.few_observers),
        omega (arith, e, s.few_entries),
        omega (arith, b, s.few_bytes),
      )
      (
        omega (arith, po, s.own.observers),
        omega (arith, pe, s.own.entries),
        omega (arith, pb, s.own.bytes),
      )
      s
