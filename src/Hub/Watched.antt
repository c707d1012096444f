-- ===== src/Hub/Watched.antt =====
-- daemon/pending.go: every change of a partition keeps its observers in step with what is pending.
use spice_agent.Base.{
  ℕ, ◌+◌, ◌≤◌, ◌≡◌, refl, sym, ap, subst, ◌∙◌, true, if◌then◌else◌, if_intro, List, [], ◌∷◌, ◌++◌,
  append_assoc, append-nil, length, Option, none, some, arith, All, All-append, All-split, max_u64,
}
use spice_agent.Hub.Types.{HubError, PendingKey, PendingCall, PendingLimits, key_of, opened, closed}
use spice_agent.Hub.Watchers.{
  Usage, Watcher, WatcherStage, WatcherReady, QueuedDelta, selecting, holding, passed_on, returned,
  stop_closed, queue_ready, consumer_ready, deliver_watcher, deliver_watcher_at, take_item,
  return_watcher, mark_delivered, new_watcher,
}
use spice_agent.Hub.Store.{Partition, CallCounts, find_call, open_call, close_call}
use spice_agent.Hub.Observing.{Found, finish_found, finish_watchers, deliver_found, snapshot_of}
use spice_agent.Hub.Replay.{replay_deltas, Agrees, IsKeyed, sort_values-Agrees}
use spice_agent.Hub.Mirror.{
  deltas_of, held, sent, IsNumbered, IsMirror, IsWatched, publish-IsWatched,
}
use spice_agent.Hub.ShareCalls.{delete_call_lem}
use spice_agent.Hub.ShareWatchers.{IsSplit, with_new}
use spice_agent.Hub.Partitions.{IsKept}
use spice_agent.Hub.Changes.{opened-Agrees, find_call-key, closed-Agrees, delete_call-IsKeyed}

-- An observer that keeps its snapshot and what was sent to it stays in step.
same-IsMirror :
    (n : ℕ) (cs : List (PendingKey × PendingCall)) (w w' : Watcher)
    → w'.active ≡ true
    → w'.snapshot ≡ w.snapshot
    → sent w' ≡ sent w
    → IsMirror n cs w
    → IsMirror n cs w'
same-IsMirror n cs w w' active snap same m = record {
  is_active = active;
  numbered =
      subst (IsNumbered w'.snapshot.revision) (sym same)
        (subst (λ s. IsNumbered s.revision (sent w)) (sym snap) m.numbered);
  reached = omega (arith, ap length same, ap (λ s. s.revision) snap, m.reached);
  agrees =
      subst (λ ds. Agrees (replay_deltas ds w'.snapshot.pending) cs) (sym same)
        (subst (λ s. Agrees (replay_deltas (sent w) s.pending) cs) (sym snap) m.agrees);
}

stop_or-IsMirror :
    (n : ℕ) (cs : List (PendingKey × PendingCall)) (w : Watcher)
    → IsMirror n cs w
    → IsMirror n cs (if w.active then w else return_watcher w)
stop_or-IsMirror n cs w m =
    if_intro (IsMirror n cs) w.active (λ _. m) (λ stopped. absurd (grind (arith, m.is_active)))

take_item-IsMirror :
    (n : ℕ) (cs : List (PendingKey × PendingCall)) (w : Watcher) (queue : List QueuedDelta)
    → w.queue ≡ queue
    → w.stage ≡ selecting
    → IsMirror n cs w
    → IsMirror n cs (take_item w queue)
unfolding take_item
take_item-IsMirror n cs w [] same at m = m
take_item-IsMirror n cs w (x ∷ xs) same at m =
    let rest = deltas_of xs in
    let old : sent w ≡ w.received ++ x.delta ∷ rest =
      ap (λ s. w.received ++ held s ++ deltas_of w.queue) at
      ∙ ap (λ q. w.received ++ [] ++ deltas_of q) same
      ∙ ap (λ r. r ++ x.delta ∷ rest) (append-nil w.received) in
    same-IsMirror n cs w _ m.is_active refl (append_assoc w.received (x.delta ∷ []) rest ∙ sym old)
      m

mark_delivered-IsMirror :
    (n : ℕ) (cs : List (PendingKey × PendingCall)) (w : Watcher) (x : QueuedDelta)
    → w.stage ≡ passed_on x
    → IsMirror n cs w
    → IsMirror n cs (mark_delivered x w)
unfolding mark_delivered
mark_delivered-IsMirror n cs w x at m =
    let still = sym (ap (λ s. w.received ++ held s ++ deltas_of w.queue) at) in
    if_intro (IsMirror n cs) w.active (λ _. same-IsMirror n cs w _ m.is_active refl still m)
      (λ _. same-IsMirror n cs w _ m.is_active refl still m)

deliver_watcher-IsMirror :
    (n : ℕ) (cs : List (PendingKey × PendingCall)) (w : Watcher) (stage : WatcherStage)
    (ready : WatcherReady)
    → w.stage ≡ stage
    → IsMirror n cs w
    → IsMirror n cs (deliver_watcher_at stage ready w)
unfolding deliver_watcher_at
deliver_watcher-IsMirror n cs w selecting stop_closed at m = stop_or-IsMirror n cs w m
deliver_watcher-IsMirror n cs w selecting queue_ready at m =
    take_item-IsMirror n cs w w.queue refl at m
deliver_watcher-IsMirror n cs w selecting consumer_ready at m = m
deliver_watcher-IsMirror n cs w (holding x) stop_closed at m = stop_or-IsMirror n cs w m
deliver_watcher-IsMirror n cs w (holding x) queue_ready at m = m
deliver_watcher-IsMirror n cs w (holding x) consumer_ready at m =
    same-IsMirror n cs w _ m.is_active refl
      (ap (λ r. r ++ deltas_of w.queue) (append-nil (w.received ++ x.delta ∷ []))
        ∙ sym (ap (λ s. w.received ++ held s ++ deltas_of w.queue) at))
      m
deliver_watcher-IsMirror n cs w (passed_on x) ready at m = mark_delivered-IsMirror n cs w x at m
deliver_watcher-IsMirror n cs w returned ready at m = m

around_found :
    (n : ℕ) (cs : List (PendingKey × PendingCall)) (f : Found) (ws : List Watcher)
    → ws ≡ f.before ++ f.watcher ∷ f.after
    → All (IsMirror n cs) ws
    → All (IsMirror n cs) f.before × IsMirror n cs f.watcher × All (IsMirror n cs) f.after
around_found n cs f ws split all =
    let (before, after) =
      All-split (IsMirror n cs) f.before (f.watcher ∷ f.after)
        (subst (All (IsMirror n cs)) split all) in
    (before, after.0, after.1)

-- The observers of a partition may be replaced.
with_mirrors :
    (p p' : Partition)
    → p'.revision ≡ p.revision
    → p'.pending ≡ p.pending
    → All (IsMirror p.revision p.pending) p'.watchers
    → IsWatched p
    → IsWatched p'
with_mirrors p p' n cs mirrors s = record {
  keyed = subst IsKeyed (sym cs) s.keyed;
  room = omega (arith, s.room, ap length cs);
  mirrors =
      subst (λ m. All (IsMirror m p'.pending) p'.watchers) (sym n)
        (subst (λ xs. All (IsMirror p.revision xs) p'.watchers) (sym cs) mirrors);
}

open_call-IsWatched :
    (l : PendingLimits) (call : PendingCall) (c : CallCounts) (u : Usage) (p : Partition)
    → find_call (key_of call.value) p.pending ≡ none
    → p.revision + (length p.pending + 2) ≤ max_u64
    → IsWatched p
    → IsWatched (open_call l call c u p).2
unfolding open_call
open_call-IsWatched l call c u p absent room s =
    publish-IsWatched l opened call.value u p.pending _ (refl, absent, s.keyed) (omega arith)
      (opened-Agrees call p.pending) s.mirrors

close_call-IsWatched :
    (l : PendingLimits) (key : PendingKey) (call : PendingCall) (c : CallCounts) (u : Usage)
    (p : Partition)
    → find_call key p.pending ≡ some call
    → IsWatched p
    → IsWatched (close_call l key call c u p).2
unfolding close_call
close_call-IsWatched l key call c u p found s =
    let (fewer, _) = delete_call_lem key call p.pending found in
    publish-IsWatched l closed call.value u p.pending _ (delete_call-IsKeyed key p.pending s.keyed)
      (omega (arith, s.room))
      (λ vs.
        closed-Agrees key call p.pending vs s.keyed
          (find_call-key key call p.pending s.keyed found))
      s.mirrors

subscribed-IsWatched : (l : PendingLimits) (p : Partition) → IsWatched p → IsWatched (with_new l p)
unfolding new_watcher snapshot_of replay_deltas
subscribed-IsWatched l p s =
    with_mirrors p (with_new l p) refl refl
      (All-append (IsMirror p.revision p.pending) p.watchers _ s.mirrors (
        record {
          is_active = refl;
          numbered = tt;
          reached = omega arith;
          agrees = sort_values-Agrees p.pending s.keyed;
        },
        tt,
      ))
      s

finish_found-IsWatched :
    (l : PendingLimits) (e : HubError) (f : Option Found) (u : Usage) (p : Partition)
    → IsSplit p.watchers f
    → IsWatched p
    → IsWatched (finish_found l e f (u, p)).1
unfolding finish_found
finish_found-IsWatched l e none u p split s = s
finish_found-IsWatched l e (some f) u p split s =
    let (before, mine, after) = around_found p.revision p.pending f p.watchers split s.mirrors in
    with_mirrors p _ refl refl
      (All-append (IsMirror p.revision p.pending) f.before f.after before after) s

finish_watchers-IsWatched :
    (l : PendingLimits) (e : HubError) (ws : List Watcher) (u : Usage) (p : Partition)
    → IsKeyed p.pending
    → p.revision + length p.pending ≤ max_u64
    → IsWatched (finish_watchers l e ws (u, p)).1
unfolding finish_watchers
finish_watchers-IsWatched l e [] u p keyed room = record {
  keyed = keyed;
  room = room;
  mirrors = tt;
}
finish_watchers-IsWatched l e (w ∷ ws) u p keyed room =
    finish_watchers-IsWatched l e ws _ _ keyed room

deliver_found-IsWatched :
    (ready : WatcherReady) (f : Option Found) (u : Usage) (p : Partition)
    → IsSplit p.watchers f
    → IsWatched p
    → IsWatched (deliver_found ready f (u, p)).1
unfolding deliver_found deliver_watcher
deliver_found-IsWatched ready none u p split s = s
deliver_found-IsWatched ready (some f) u p split s =
    let (before, mine, after) = around_found p.revision p.pending f p.watchers split s.mirrors in
    with_mirrors p _ refl refl
      (All-append (IsMirror p.revision p.pending) f.before _ before (
        deliver_watcher-IsMirror p.revision p.pending f.watcher f.watcher.stage ready refl mine,
        after,
      ))
      s

pub IsWatched-IsKept : IsKept IsWatched
IsWatched-IsKept = record {
  begins = record { keyed = tt; room = omega arith; mirrors = tt };
  bound = λ p n s. with_mirrors p _ refl refl s.mirrors s;
  opened_call = open_call-IsWatched;
  closed_call = close_call-IsWatched;
  subscribed = subscribed-IsWatched;
  finished = finish_found-IsWatched;
  finished_all = λ l e u p s. finish_watchers-IsWatched l e p.watchers u p s.keyed s.room;
  delivered = deliver_found-IsWatched;
  stopped = λ p ws s. with_mirrors p _ refl refl s.mirrors s;
}
