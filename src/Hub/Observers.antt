-- ===== src/Hub/Observers.antt =====
-- daemon/pending.go: what the observers see in every hub that can be reached, and what a fence leaves.
use spice_agent.Base.{
  ◌+◌, ◌≤◌, ◌≡◌, refl, sym, ap, subst, ◌∙◌, Bool, true, false, not, if_false, List, [], ◌∷◌, length,
  Option, none, some, arith, All, Bytes, max_u64, ok, err, Result, find_key, find-put_key,
}
use spice_agent.Session.Types.{bounded_token}
use spice_agent.Hub.Types.{PendingLimits, HubError, observer_fenced, LimitLabel}
use spice_agent.Hub.Limits.{validate_pending_limits}
use spice_agent.Hub.Watchers.{stop_watcher, Usage, Watcher}
use spice_agent.Hub.Store.{Partition, PendingHub, new_pending_hub, fresh_hub}
use spice_agent.Hub.Observing.{finish_watchers, stop_all, in_found, in_partition, fence_observers}
use spice_agent.Hub.Mirror.{IsMirror, IsWatched}
use spice_agent.Hub.Watched.{IsWatched-IsKept}
use spice_agent.Hub.Partitions.{Holds, found_own}
use spice_agent.Hub.Kept.{Reaches-Holds}
use spice_agent.Hub.Reachable.{Reaches}
use spice_agent.Hub.Bounds.{new_pending_hub-IsSound}

new_pending_hub-Holds :
    (limits : PendingLimits) (start : PendingHub)
    → new_pending_hub limits ≡ ok start
    → Holds IsWatched IsWatched-IsKept start
unfolding new_pending_hub
new_pending_hub-Holds limits start =
    elim (validate_pending_limits limits)
      as (λ r.
        (elim r as (λ _. Result LimitLabel PendingHub) [
          | err e ↦ err e
          | ok u ↦ ok (fresh_hub limits)
        ])
          ≡ ok start
        → Holds IsWatched IsWatched-IsKept start) [
          | err e ↦ λ h. absurd (grind arith)
          | ok u ↦ λ h.
              let same : fresh_hub limits ≡ start = grind arith in
              subst (Holds IsWatched IsWatched-IsKept) same tt
        ]

pub Reaches-IsWatched :
    (json_valid : Bytes → Bool) (limits : PendingLimits) (start hub : PendingHub) (client : Bytes)
    (p : Partition)
    → new_pending_hub limits ≡ ok start
    → Reaches json_valid start hub
    → find_key client hub.partitions ≡ some p
    → IsWatched p
Reaches-IsWatched json_valid limits start hub client p made reached found =
    found_own IsWatched IsWatched-IsKept client p hub
      (Reaches-Holds IsWatched IsWatched-IsKept json_valid start hub reached
        (new_pending_hub-IsSound limits start made) (new_pending_hub-Holds limits start made))
      found

-- In every hub that can be reached, each observer of a client is in step with the client's pending calls:
-- the deltas that were sent to it, those that its consumer got, the one on its way and those in its queue,
-- have the revisions that follow its snapshot's one by one up to the current one, and replayed over the
-- snapshot they show under each key the call that is pending there.
pub observers_in_step :
    (json_valid : Bytes → Bool) (limits : PendingLimits) (start hub : PendingHub) (client : Bytes)
    (p : Partition)
    → new_pending_hub limits ≡ ok start
    → Reaches json_valid start hub
    → find_key client hub.partitions ≡ some p
    → All (IsMirror p.revision p.pending) p.watchers
observers_in_step json_valid limits start hub client p made reached found =
    (Reaches-IsWatched json_valid limits start hub client p made reached found).mirrors

-- In every hub that can be reached, the revision of a client leaves room for the closing deltas of all of
-- its pending calls: no revision wraps around.
pub revisions_bounded :
    (json_valid : Bytes → Bool) (limits : PendingLimits) (start hub : PendingHub) (client : Bytes)
    (p : Partition)
    → new_pending_hub limits ≡ ok start
    → Reaches json_valid start hub
    → find_key client hub.partitions ≡ some p
    → p.revision + length p.pending ≤ max_u64
revisions_bounded json_valid limits start hub client p made reached found =
    (Reaches-IsWatched json_valid limits start hub client p made reached found).room

-- The watcher `s` is `w` after its end: its goroutine is told to stop, with the error, and what it was
-- sent stays.
abbrev IsEnded : HubError → Watcher → Watcher → Type 0
IsEnded e w s =
    (s.id ≡ w.id)
    × (s.active ≡ false)
    × (s.error ≡ some e)
    × (s.exhaustion ≡ none)
    × (s.queue ≡ w.queue)
    × (s.received ≡ w.received)

-- The watchers have ended, one by one, and each is put to those that are stopping.
abbrev pub HaveEnded : HubError → List Watcher → List Watcher → List Watcher → Type 0
HaveEnded e [] stopping after = after ≡ stopping
HaveEnded e (w ∷ ws) stopping after =
    (s : Watcher) × IsEnded e w s × HaveEnded e ws (s ∷ stopping) after

finish_watchers_lem :
    (l : PendingLimits) (e : HubError) (ws : List Watcher) (u : Usage) (p : Partition)
    → let after = (finish_watchers l e ws (u, p)).1 in
      (after.watchers ≡ [])
      × (after.pending ≡ p.pending)
      × (after.revision ≡ p.revision)
      × (after.bound_runs ≡ p.bound_runs)
      × HaveEnded e ws p.stopping after.stopping
unfolding finish_watchers stop_watcher
finish_watchers_lem l e [] u p = (refl, refl, refl, refl, refl)
finish_watchers_lem l e (w ∷ ws) u p =
    let (none_left, same, still, bound, ended) = finish_watchers_lem l e ws _ _ in
    (
      none_left,
      same,
      still,
      bound,
      (stop_watcher e none w, (refl, refl, refl, refl, refl, refl), ended),
    )

-- No observer is left to the client, all of them are stopping, and else nothing has changed.
abbrev pub IsFenced : PendingHub → Bytes → Partition → PendingHub × Option HubError → Type 0
IsFenced hub client p (after, e) =
    (e ≡ none)
    × ((p' : Partition) × (find_key client after.partitions ≡ some p')
        × (p'.watchers ≡ [])
        × (p'.pending ≡ p.pending)
        × (p'.revision ≡ p.revision)
        × (p'.bound_runs ≡ p.bound_runs)
        × HaveEnded observer_fenced p.watchers p.stopping p'.stopping
        × (after.calls ≡ hub.calls))

-- FenceObservers on an open hub, for a client with a partition: no observer of the client is left, each of
-- them is now among the stopping ones, told to stop with ErrObserverFenced and with its queue as it was,
-- and the client's revision, pending calls and bound runs and the hub's counters of calls stay as they are.
pub fence_observers_lem :
    (hub : PendingHub) (client : Bytes) (p : Partition)
    → bounded_token client ≡ true
    → hub.closed ≡ false
    → find_key client hub.partitions ≡ some p
    → IsFenced hub client p (fence_observers hub client)
unfolding fence_observers in_partition in_found
fence_observers_lem hub client p named running found =
    let f = stop_all hub.limits observer_fenced in
    let fenced : PendingHub = in_found f client (some p) hub in
    let same : fence_observers hub client ≡ (fenced, none) =
      if_false (not (bounded_token client)) _ _ (ground arith)
      ∙ if_false hub.closed _ _ running
      ∙ ap (λ o. (in_found f client o hub, none)) found in
    let (none_left, pending, still, bound, ended) =
      finish_watchers_lem hub.limits observer_fenced p.watchers hub.usage p in
    subst (IsFenced hub client p) (sym same) (
      refl,
      (
        (f (hub.usage, p)).1,
        find-put_key client _ hub.partitions,
        none_left,
        pending,
        still,
        bound,
        ended,
        refl,
      ),
    )
