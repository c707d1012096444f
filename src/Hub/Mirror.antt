-- ===== src/Hub/Mirror.antt =====
-- daemon/pending.go: an observer's snapshot and the deltas sent to it show what is pending.
use mathlib.Core.List.{map-append}
use spice_agent.Base.{
  ℕ, suc, ◌+◌, ◌≤◌, ◌≡◌, sym, ap, subst, ◌∙◌, true, List, [], ◌∷◌, ◌++◌, map, append_assoc, length,
  length-append, Option, none, some, arith, All, All-append, All-map, max_u64, add64, add64_exact,
}
use spice_agent.Hub.Types.{
  Pending, PendingKey, PendingCall, PendingLimits, DeltaKind, Delta, Exhaustion,
  pending_delta_bytes,
}
use spice_agent.Hub.Watchers.{
  Usage, Watcher, WatcherStage, QueuedDelta, holding, enqueue, Board, offer_delta, offer_deltas,
}
use spice_agent.Hub.Store.{Partition, publish}
use spice_agent.Hub.Replay.{replay_kind, replay_deltas, replay_deltas-append, Agrees, IsKeyed}

abbrev pub held : WatcherStage → List Delta
held (holding x) = x.delta ∷ []
held stage = []

abbrev pub deltas_of : List QueuedDelta → List Delta
deltas_of = map (λ x. x.delta)

-- What was sent to an observer: what its consumer got, then what is on its way, then its queue.
abbrev pub sent : Watcher → List Delta
sent w = w.received ++ held w.stage ++ deltas_of w.queue

-- The revisions follow each other from the one after `n`.
abbrev pub IsNumbered : ℕ → List Delta → Type 0
IsNumbered n [] = Unit {0}
IsNumbered n (d ∷ ds) = (d.revision ≡ suc n) × IsNumbered (suc n) ds

-- The observer is in step with a partition at a revision with some pending calls.
pub record IsMirror (revision : ℕ) (pending : List (PendingKey × PendingCall)) (w : Watcher)
    : Type 0 where
  pub is_active : w.active ≡ true
  pub numbered : IsNumbered w.snapshot.revision (sent w)
  pub reached : w.snapshot.revision + length (sent w) ≡ revision
  pub agrees : Agrees (replay_deltas (sent w) w.snapshot.pending) pending

IsNumbered-append :
    (n : ℕ) (ds : List Delta) (d : Delta)
    → IsNumbered n ds
    → d.revision ≡ suc (n + length ds)
    → IsNumbered n (ds ++ d ∷ [])
IsNumbered-append n [] d all same = (omega arith, tt)
IsNumbered-append n (e ∷ ds) d (first, all) same =
    (first, IsNumbered-append (suc n) ds d all (omega arith))

enqueue-sent : (d : Delta) (size : ℕ) (w : Watcher) → sent (enqueue d size w) ≡ sent w ++ d ∷ []
unfolding enqueue
enqueue-sent d size w =
    let deltas = deltas_of w.queue in
    ap (λ xs. w.received ++ held w.stage ++ xs)
      (map-append (λ (x : QueuedDelta). x.delta) w.queue (record { delta = d; bytes = size } ∷ []))
    ∙ sym (append_assoc (w.received ++ held w.stage) deltas (d ∷ []))

enqueue-IsMirror :
    (revision : ℕ) (old new : List (PendingKey × PendingCall)) (d : Delta) (size : ℕ) (w : Watcher)
    → d.revision ≡ suc revision
    → ((vs : List Pending) → Agrees vs old → Agrees (replay_kind d.kind d.pending vs) new)
    → IsMirror revision old w
    → IsMirror (suc revision) new (enqueue d size w)
unfolding enqueue
enqueue-IsMirror revision old new d size w next step m =
    let same = enqueue-sent d size w in
    record {
      is_active = m.is_active;
      numbered =
          subst (IsNumbered w.snapshot.revision) (sym same) (
            IsNumbered-append w.snapshot.revision (sent w) d m.numbered (omega (arith, m.reached)));
      reached = omega (arith, ap length same, length-append (sent w) (d ∷ []), m.reached);
      agrees =
          subst (λ ds. Agrees (replay_deltas ds w.snapshot.pending) new) (sym same)
            (subst (λ vs. Agrees vs new) (sym (replay_deltas-append (sent w) d w.snapshot.pending))
              (step _ m.agrees));
    }

offer_delta-All :
    (P : Watcher → Type 0) (l : PendingLimits) (d : Delta) (w : Watcher)
    (reason : Option Exhaustion) (b : Board)
    → P (enqueue d (pending_delta_bytes d) w)
    → All P b.watchers
    → All P (offer_delta l d w reason b).watchers
unfolding offer_delta
offer_delta-All P l d w none b one all = All-append P b.watchers _ all (one, tt)
offer_delta-All P l d w (some x) b one all = all

-- What holds of each observer with the delta, holds of those that are left after the publication.
offer_deltas-All :
    (P : Watcher → Type 0) (l : PendingLimits) (d : Delta) (todo : List Watcher) (b : Board)
    → All (λ w. P (enqueue d (pending_delta_bytes d) w)) todo
    → All P b.watchers
    → All P (offer_deltas l d todo b).watchers
unfolding offer_deltas
offer_deltas-All P l d [] b next all = all
offer_deltas-All P l d (w ∷ ws) b (one, next) all =
    offer_deltas-All P l d ws _ next (offer_delta-All P l d w _ b one all)

-- What holds of a partition by itself.
pub record IsWatched (p : Partition) : Type 0 where
  pub keyed : IsKeyed p.pending
  pub room : p.revision + length p.pending ≤ max_u64
  pub mirrors : All (IsMirror p.revision p.pending) p.watchers

pub publish-IsWatched :
    (l : PendingLimits) (kind : DeltaKind) (value : Pending) (u : Usage)
    (old : List (PendingKey × PendingCall)) (p : Partition)
    → IsKeyed p.pending
    → suc p.revision + length p.pending ≤ max_u64
    → ((vs : List Pending) → Agrees vs old → Agrees (replay_kind kind value vs) p.pending)
    → All (IsMirror p.revision old) p.watchers
    → IsWatched (publish l kind value u p).1
unfolding publish
publish-IsWatched l kind value u old p keyed room step mirrors =
    let exact : add64 p.revision 1 ≡ suc p.revision =
      add64_exact p.revision 1 (omega arith) ∙ omega arith in
    let d : Delta = record { revision = add64 p.revision 1; kind = kind; pending = value } in
    record {
      keyed = keyed;
      room = omega (arith, exact);
      mirrors =
          offer_deltas-All (IsMirror (add64 p.revision 1) p.pending) l d p.watchers _
            (All-map
              (λ w m.
                subst (λ n. IsMirror n p.pending (enqueue d (pending_delta_bytes d) w)) (sym exact)
                  (enqueue-IsMirror p.revision old p.pending d _ w exact step m))
              p.watchers mirrors)
            tt;
    }
