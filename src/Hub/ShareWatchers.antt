-- ===== src/Hub/ShareWatchers.antt =====
-- daemon/pending.go: a subscription and the end of watchers keep a client's share
-- of the counters.
use spice_agent.Base.{
  ℕ, suc, ◌+◌, ◌≤◌, ◌<◌, ◌≡◌, refl, sym, ap, subst, ◌∙◌, false, if_intro, length, ◌==◌,
  length-append, List, [], ◌∷◌, ◌++◌, Option, none, some, arith, All, All-append, All-split,
}
use spice_agent.Hub.Types.{PendingSnapshot, PendingLimits, HubError}
use spice_agent.Hub.Limits.{AreFunded}
use spice_agent.Hub.Watchers.{
  Usage, no_usage, Watcher, new_watcher, reserve, over_reserved, give_back, stop_watcher,
}
use spice_agent.Hub.Booking.{
  IsQueued, IsBooked, total-append, split-IsBooked, join-IsBooked, give_back-IsBooked,
}
use spice_agent.Hub.Store.{Partition, CallCounts}
use spice_agent.Hub.Accounts.{call_bytes, IsShare}
use spice_agent.Hub.Observing.{
  snapshot_of, Found, find_watcher, push_before, finish_found, finish_watchers,
}

-- The watchers of a client and the counters may be replaced together.
pub with_watchers :
    (l : PendingLimits) (rest : Usage) (other : CallCounts) (u u' : Usage) (c : CallCounts)
    (p p' : Partition)
    → p'.pending ≡ p.pending
    → p'.pending_bytes ≡ p.pending_bytes
    → IsBooked l rest u' [] p'.watchers
    → IsBooked l no_usage p'.usage [] p'.watchers
    → All (IsQueued l) p'.watchers
    → (u'.observers ≤ l.observers)
      × (u'.reserved_entries ≤ l.reserved_queue_entries)
      × (u'.reserved_bytes ≤ l.reserved_queue_bytes)
    → (p'.usage.observers ≤ l.observers_per_client)
      × (p'.usage.reserved_entries ≤ l.reserved_queue_entries_per_client)
      × (p'.usage.reserved_bytes ≤ l.reserved_queue_bytes_per_client)
    → IsShare l rest other u c p
    → IsShare l rest other u' c p'
with_watchers l rest other u u' c p p' same bytes booked own queued (o, e, b) (co, ce, cb) s =
    record {
      covered = s.covered;
      own = record {
        booked = own;
        queued = queued;
        entries = ce;
        bytes = cb;
        observers = co;
        weighed = bytes ∙ s.own.weighed ∙ ap call_bytes (sym same);
        few = omega (arith, ap length same, s.own.few);
        light = omega (arith, s.own.light);
      };
      booked = booked;
      few_observers = o;
      few_entries = e;
      few_bytes = b;
      count = s.count ∙ ap (λ cs. other.count + length cs) (sym same);
      call_bytes = s.call_bytes ∙ ap (λ n. other.bytes + n) (sym bytes);
      few_calls = s.few_calls;
      light_calls = s.light_calls;
    }

reserve-IsBooked :
    (l : PendingLimits) (rest u : Usage) (ws : List Watcher) (id : ℕ) (snapshot : PendingSnapshot)
    → IsBooked l rest u [] ws
    → IsBooked l rest (reserve l u) [] (ws ++ new_watcher id snapshot ∷ [])
unfolding reserve new_watcher
reserve-IsBooked l rest u ws id snapshot b =
    let last = new_watcher id snapshot ∷ [] in
    record {
      observers = omega (arith, b.observers, length-append ws last);
      entries = omega (arith, b.entries, total-append (λ x. x.queued_count) ws last);
      bytes = omega (arith, b.bytes, total-append (λ x. x.queued_bytes) ws last);
      reserved_entries =
          omega (arith, b.reserved_entries, total-append (λ x. l.observer_queue_entries) ws last);
      reserved_bytes =
          omega (arith, b.reserved_bytes, total-append (λ x. l.observer_queue_bytes) ws last);
    }

-- The partition after a subscription.
abbrev pub with_new : PendingLimits → Partition → Partition
with_new l p = record p {
  next_watcher = suc p.next_watcher;
  usage = reserve l p.usage;
  watchers = p.watchers ++ new_watcher (suc p.next_watcher) (snapshot_of p) ∷ [];
}

new_watcher-IsQueued :
    (l : PendingLimits) (id : ℕ) (snapshot : PendingSnapshot) → IsQueued l (new_watcher id snapshot)
unfolding new_watcher
new_watcher-IsQueued l id snapshot = record {
  is_active = refl;
  counted = refl;
  weighed = refl;
  few = omega arith;
  light = omega arith;
}

pub reserve-IsShare :
    (l : PendingLimits) (rest : Usage) (other : CallCounts) (u : Usage) (c : CallCounts)
    (p : Partition)
    → AreFunded l
    → u.observers < l.observers
    → length p.watchers < l.observers_per_client
    → over_reserved l u p.usage ≡ false
    → IsShare l rest other u c p
    → IsShare l rest other (reserve l u) c (with_new l p)
unfolding reserve over_reserved
reserve-IsShare l rest other u c p funded few few_here room s =
    let own = s.own.booked in
    with_watchers l rest other u _ c p (with_new l p) refl refl
      (reserve-IsBooked l rest u p.watchers _ _ s.booked)
      (reserve-IsBooked l no_usage p.usage p.watchers _ _ s.own.booked)
      (All-append (IsQueued l) p.watchers _ s.own.queued (new_watcher-IsQueued l _ _, tt))
      (omega arith, ground (arith, funded.one_entries), ground (arith, funded.one_bytes))
      (
        omega (arith, own.observers),
        ground (arith, funded.one_client_entries),
        ground (arith, funded.one_client_bytes),
      )
      s

-- A watcher in the map is found with those around it.
abbrev pub IsSplit : List Watcher → Option Found → Type 0
IsSplit ws none = Unit {0}
IsSplit ws (some f) = ws ≡ f.before ++ f.watcher ∷ f.after

push_before-IsSplit :
    (w : Watcher) (ws : List Watcher) (f : Option Found)
    → IsSplit ws f
    → IsSplit (w ∷ ws) (push_before w f)
unfolding push_before
push_before-IsSplit w ws none h = tt
push_before-IsSplit w ws (some f) h = ap (λ xs. w ∷ xs) h

pub find_watcher-IsSplit : (id : ℕ) (ws : List Watcher) → IsSplit ws (find_watcher id ws)
unfolding find_watcher
find_watcher-IsSplit id [] = tt
find_watcher-IsSplit id (w ∷ ws) =
    if_intro (IsSplit (w ∷ ws)) (w.id == id) (λ _. refl)
      (λ _. push_before-IsSplit w ws _ (find_watcher-IsSplit id ws))

pub around :
    (l : PendingLimits) (f : Found) (ws : List Watcher)
    → ws ≡ f.before ++ f.watcher ∷ f.after
    → All (IsQueued l) ws
    → All (IsQueued l) f.before × IsQueued l f.watcher × All (IsQueued l) f.after
around l f ws split all =
    let (before, after) =
      All-split (IsQueued l) f.before (f.watcher ∷ f.after) (subst (All (IsQueued l)) split all) in
    (before, after.0, after.1)

pub found-IsBooked :
    (l : PendingLimits) (rest u : Usage) (f : Found) (ws : List Watcher)
    → ws ≡ f.before ++ f.watcher ∷ f.after
    → IsBooked l rest u [] ws
    → IsBooked l rest u f.before (f.watcher ∷ f.after)
found-IsBooked l rest u f ws split b =
    split-IsBooked l rest u f.before (f.watcher ∷ f.after)
      (subst (λ xs. IsBooked l rest u [] xs) split b)

pub finish_found-IsShare :
    (l : PendingLimits) (rest : Usage) (other : CallCounts) (u : Usage) (c : CallCounts)
    (p : Partition) (e : HubError) (f : Option Found)
    → IsSplit p.watchers f
    → IsShare l rest other u c p
    → IsShare l rest other (finish_found l e f (u, p)).0 c (finish_found l e f (u, p)).1
unfolding finish_found give_back
finish_found-IsShare l rest other u c p e none split s = s
finish_found-IsShare l rest other u c p e (some f) split s =
    let (before, mine, after) = around l f p.watchers split s.own.queued in
    with_watchers l rest other u _ c p _ refl refl
      (join-IsBooked l rest _ f.before f.after (
        give_back-IsBooked l rest u f.before f.after f.watcher
          (found-IsBooked l rest u f p.watchers split s.booked)))
      (join-IsBooked l no_usage _ f.before f.after (
        give_back-IsBooked l no_usage p.usage f.before f.after f.watcher
          (found-IsBooked l no_usage p.usage f p.watchers split s.own.booked)))
      (All-append (IsQueued l) f.before f.after before after)
      (omega (arith, s.few_observers), omega (arith, s.few_entries), omega (arith, s.few_bytes))
      (omega (arith, s.own.observers), omega (arith, s.own.entries), omega (arith, s.own.bytes)) s

pub finish_watchers-IsShare :
    (l : PendingLimits) (rest : Usage) (other : CallCounts) (e : HubError) (ws : List Watcher)
    (u : Usage) (c : CallCounts) (p : Partition)
    → IsShare l rest other u c (record p { watchers = ws })
    → IsShare l rest other (finish_watchers l e ws (u, p)).0 c (finish_watchers l e ws (u, p)).1
unfolding finish_watchers give_back
finish_watchers-IsShare l rest other e [] u c p s = s
finish_watchers-IsShare l rest other e (w ∷ ws) u c p s =
    let p' : Partition = record p {
      usage = give_back l w p.usage;
      stopping = stop_watcher e none w ∷ p.stopping;
    } in
    finish_watchers-IsShare l rest other e ws (give_back l w u) c p' (
      with_watchers l rest other u _ c (record p { watchers = w ∷ ws })
        (record p' { watchers = ws }) refl refl (give_back-IsBooked l rest u [] ws w s.booked)
        (give_back-IsBooked l no_usage p.usage [] ws w s.own.booked) (s.own.queued.1)
        (omega (arith, s.few_observers), omega (arith, s.few_entries), omega (arith, s.few_bytes))
        (omega (arith, s.own.observers), omega (arith, s.own.entries), omega (arith, s.own.bytes))
        s)
