-- ===== src/Hub/Takers.antt =====
-- daemon/pending.go, publishLocked: which observers get a delta, without the other observers in sight.
use spice_agent.Base.{
  ◌≡◌, refl, sym, ap, ◌∙◌, List, [], ◌∷◌, ◌++◌, Option, none, some, Bytes, find_key, append_assoc,
  append-nil, inl, add64,
}
use spice_agent.Hub.Types.{
  PendingLimits, Delta, DeltaKind, Pending, Exhaustion, exhausted, pending_delta_bytes,
}
use spice_agent.Hub.Limits.{AreFunded}
use spice_agent.Hub.Watchers.{
  Usage, Watcher, Board, enqueue, refuse_delta, offer_delta, offer_deltas, stop_watcher,
}
use spice_agent.Hub.Booking.{IsCovered}
use spice_agent.Hub.Isolation.{own_refusal, IsBoard, refuse_delta-own_refusal}
use spice_agent.Hub.Publish.{offer_delta-IsBoard}
use spice_agent.Hub.Store.{Partition, PendingHub, publish}
use spice_agent.Hub.Shares.{share, other_calls}
use spice_agent.Hub.ShareCalls.{IsShare-IsBoard}
use spice_agent.Hub.Sound.{IsSound}

-- An observer that takes the delta, or none where its own queue is exhausted.
unfoldable pub taker : Delta → Watcher → Option Exhaustion → List Watcher
unfolding enqueue
taker d w none = enqueue d (pending_delta_bytes d) w ∷ []
taker d w (some x) = []

unfoldable pub takers : PendingLimits → Delta → List Watcher → List Watcher
unfolding taker own_refusal
takers l d [] = []
takers l d (w ∷ ws) = taker d w (own_refusal l w (pending_delta_bytes d)) ++ takers l d ws

-- The exhausted observers, the last one first.
unfoldable pub dropper : Watcher → Option Exhaustion → List Watcher
unfolding stop_watcher
dropper w none = []
dropper w (some x) = stop_watcher (exhausted x 0) (some x) w ∷ []

unfoldable pub droppers : PendingLimits → Delta → List Watcher → List Watcher
unfolding dropper own_refusal
droppers l d [] = []
droppers l d (w ∷ ws) = droppers l d ws ++ dropper w (own_refusal l w (pending_delta_bytes d))

offer_delta-watchers :
    (l : PendingLimits) (d : Delta) (w : Watcher) (reason : Option Exhaustion) (b : Board)
    → ((offer_delta l d w reason b).watchers ≡ b.watchers ++ taker d w reason)
      × ((offer_delta l d w reason b).stopping ≡ dropper w reason ++ b.stopping)
unfolding offer_delta taker dropper
offer_delta-watchers l d w none b = (refl, refl)
offer_delta-watchers l d w (some x) b = (sym (append-nil b.watchers), refl)

offer_deltas-takers :
    (l : PendingLimits) (rest : Usage) (d : Delta) (todo : List Watcher) (b : Board)
    → AreFunded l
    → IsCovered rest
    → IsBoard l rest todo b
    → ((offer_deltas l d todo b).watchers ≡ b.watchers ++ takers l d todo)
      × ((offer_deltas l d todo b).stopping ≡ droppers l d todo ++ b.stopping)
unfolding offer_deltas takers droppers
offer_deltas-takers l rest d [] b funded covered board = (sym (append-nil b.watchers), refl)
offer_deltas-takers l rest d (w ∷ ws) b funded covered board =
    let size = pending_delta_bytes d in
    let own = refuse_delta-own_refusal l rest w ws b size funded covered board in
    let reason = refuse_delta l b.hub b.client w size in
    let (took, dropped) = offer_delta-watchers l d w reason b in
    let (later, stopped) =
      offer_deltas-takers l rest d ws (offer_delta l d w reason b) funded covered
        (offer_delta-IsBoard l rest d w ws b reason (sym own) board) in
    (
      later
          ∙ ap (λ xs. xs ++ takers l d ws) (took ∙ ap (λ o. b.watchers ++ taker d w o) own)
          ∙ append_assoc b.watchers _ _,
      stopped
          ∙ ap (λ xs. droppers l d ws ++ xs) (dropped ∙ ap (λ o. dropper w o ++ b.stopping) own)
          ∙ sym (append_assoc (droppers l d ws) _ _),
    )

-- In a sound hub, a publication to a client gives the delta, with the next revision, to exactly those of
-- its observers whose own queue has room for it, and stops exactly the others: no observer's fate depends
-- on what the other observers of the client or of the hub have queued.
pub publish-takers :
    (hub : PendingHub) (client : Bytes) (p : Partition) (kind : DeltaKind) (value : Pending)
    → IsSound hub
    → find_key client hub.partitions ≡ some p
    → let after = publish hub.limits kind value hub.usage p in
      let d : Delta = record { revision = add64 p.revision 1; kind = kind; pending = value } in
      (after.1.watchers ≡ takers hub.limits d p.watchers)
      × (after.1.stopping ≡ droppers hub.limits d p.watchers ++ p.stopping)
unfolding publish
publish-takers hub client p kind value s found =
    let sh = share hub.limits hub.usage hub.calls client p hub.partitions s.accounted (inl found) in
    let d : Delta = record { revision = add64 p.revision 1; kind = kind; pending = value } in
    offer_deltas-takers hub.limits _ d p.watchers _ s.funded sh.covered
      (IsShare-IsBoard hub.limits _ (other_calls hub.calls p) hub.usage hub.calls p sh)
