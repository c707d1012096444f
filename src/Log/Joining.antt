-- ===== src/Log/Joining.antt =====
-- event/log.go: a subscription that joins a log is fed from its cursor on.
use spice_agent.Base.{
  ℕ, ◌+◌, ◌-◌, ◌≤◌, ◌≡◌, refl, ap, sym, subst, ◌∙◌, inl, inr, true, false, Bool-cases, length,
  length-append, List, ◌∷◌, Option, arith, All, All-map, Bool, Result, add64,
}
use spice_agent.Log.Types.{LogEntry, LogError, LogLimits}
use spice_agent.Log.Subscription.{Subscription, total_bytes, new_subscription}
use spice_agent.Log.Store.{Log}
use spice_agent.Log.Replay.{ReplayRequest, Page, replay, replay_page, register}
use spice_agent.Log.Cursor.{first_of_log-length}
use spice_agent.Log.Pages.{after_cursor}
use spice_agent.Log.Gapless.{IsInside, IsAnswer, after_cursor_inside}
use spice_agent.Log.Delivery.{IsFed, EndsByAbort, new_subscription-IsFed}
use spice_agent.Log.System.{System, IsTail, IsTracked, noted, noted_tail}
use spice_agent.Log.Tracking.{after_cursor-append, after_cursor_none, NumberedTo-prefix}
use spice_agent.Log.Growth.{SameWindow, keep-IsTracked}

inside_history :
    (t : System) (after : ℕ)
    → IsTracked t
    → IsInside t.log after
    → (after_cursor after t.history ≡ after_cursor after t.log.entries)
      × (t.log.last_sequence ≤ after + length t.history)
inside_history t after v (below, above) =
    let first = first_of_log-length t.log.last_sequence t.log.entries v.well_formed.numbered in
    let old = NumberedTo-prefix v.old t.log.entries t.log.last_sequence (rw v.kept at v.numbered) in
    let gone =
      after_cursor_none after (t.log.last_sequence - length t.log.entries) v.old old
        (omega (arith, first)) in
    (
      rw v.kept (after_cursor-append after v.old t.log.entries ∙ rw gone),
      omega (arith, first, ap length v.kept, length-append v.old t.log.entries),
    )

abbrev pub Registered : Log → ℕ → List LogEntry → Log
Registered log after replay = (register log after replay).0

register-shut :
    (log : Log) (after : ℕ) (events : List LogEntry)
    → log.closed ≡ true
    → (Registered log after events).subscribers ≡ log.subscribers
unfolding register
register-shut log after events shut = ground arith

register-open :
    (log : Log) (after : ℕ) (events : List LogEntry)
    → log.closed ≡ false
    → (Registered log after events).subscribers
      ≡ (add64 log.next_sub_id 1, new_subscription after log.limits events) ∷ log.subscribers
unfolding register
register-open log after events op = ground arith

new_subscription-EndsByAbort :
    (after : ℕ) (limits : LogLimits) (events : List LogEntry)
    → EndsByAbort (new_subscription after limits events)
unfolding new_subscription
new_subscription-EndsByAbort after limits events = λ e. cc

abbrev Fits : Log → List LogEntry → Type 0
Fits log events =
    (length events ≤ log.limits.subscriber_max_events)
    × (total_bytes events ≤ log.limits.subscriber_max_bytes)

-- A later call takes no cursor away.
asked-IsTail :
    (asked : List (ℕ × ℕ)) (history : List LogEntry) (last : ℕ) (closed : Bool) (call : ℕ × ℕ)
    (p : ℕ × Subscription)
    → IsTail asked history last closed p
    → IsTail (call ∷ asked) history last closed p
asked-IsTail asked history last closed call p v = record {
  after = v.after;
  called = inr v.called;
  below = v.below;
  reach = v.reach;
  fed = v.fed;
  by_abort = v.by_abort;
}

register-tails :
    (log : Log) (asked : List (ℕ × ℕ)) (history : List LogEntry) (after : ℕ)
    (events : List LogEntry)
    → All (IsTail asked history log.last_sequence log.closed) log.subscribers
    → after ≤ log.last_sequence
    → log.last_sequence ≤ after + length history
    → events ≡ after_cursor after history
    → Fits log events
    → All
        (IsTail ((add64 log.next_sub_id 1, after) ∷ asked) history log.last_sequence log.closed)
        (Registered log after events).subscribers
register-tails log asked history after events tails below reach same (few, light) =
    let older =
      All-map (asked-IsTail asked history log.last_sequence log.closed _) log.subscribers tails in
    elim (Bool-cases log.closed) [
      | inl shut ↦ rw (register-shut log after events shut) older
      | inr op ↦ rw (register-open log after events op) (
        record {
          after = after;
          called = inl (refl, refl);
          below = below;
          reach = reach;
          fed =
              subst (IsFed after (new_subscription after log.limits events)) same
                (new_subscription-IsFed after log.limits events few light);
          by_abort = λ _. new_subscription-EndsByAbort after log.limits events;
        },
        older,
      )
    ]

register-SameWindow :
    (log : Log) (after : ℕ) (events : List LogEntry) → SameWindow log (Registered log after events)
unfolding register
register-SameWindow log after events = ground arith

pub replay_page-SameWindow :
    (log : Log) (r : ReplayRequest)
    → SameWindow log (replay_page log r).0 × ((replay_page log r).0.subscribers ≡ log.subscribers)
unfolding replay_page
replay_page-SameWindow log r = ground arith

-- What a page that reaches the end of the log says of a system.
pub complete_page :
    (t : System) (r : ReplayRequest) (page : Page)
    → IsTracked t
    → IsInside t.log r.after_sequence × IsAnswer t.log r page
    → page.has_more ≡ false
    → (page.events ≡ after_cursor r.after_sequence t.history)
      × (t.log.last_sequence ≤ r.after_sequence + length t.history)
      × (page.page_last_sequence ≡ t.log.last_sequence)
complete_page t r page v (inside, answer) more =
    let (same, reach) = inside_history t r.after_sequence v inside in
    let all = answer.complete more in
    (
      all ∙ sym same,
      reach,
      omega (
        arith,
        answer.last_is,
        ap length (all ∙ sym same),
        (after_cursor_inside r.after_sequence t.log.last_sequence t.history v.numbered inside.0
            reach).1,
      ),
    )

abbrev pub with_log : System → Log → System
with_log t log = record { log = log; history = t.history; asked = t.asked }

-- What Subscribe and Replay leave, with the call that they answered.
abbrev pub after_subscribe : System → ℕ → Log × Result LogError (ℕ × Subscription) → System
after_subscribe t after r = record {
  log = r.0;
  history = t.history;
  asked = noted after r.1 t.asked;
}

abbrev pub after_replay : System → Log × Result LogError (Page × Option (ℕ × Subscription)) → System
after_replay t r = record { log = r.0; history = t.history; asked = noted_tail r.1 t.asked }

pub same-IsTracked :
    (t : System) (log' : Log)
    → IsTracked t
    → SameWindow t.log log'
    → log'.subscribers ≡ t.log.subscribers
    → IsTracked (with_log t log')
same-IsTracked t log' v same subs = keep-IsTracked t (with_log t log') v refl same (rw subs v.tails)

pub register-IsTracked :
    (t : System) (log' : Log) (after : ℕ) (events : List LogEntry)
    → IsTracked t
    → SameWindow t.log log'
    → log'.subscribers ≡ t.log.subscribers
    → after ≤ t.log.last_sequence
    → t.log.last_sequence ≤ after + length t.history
    → events ≡ after_cursor after t.history
    → Fits t.log events
    → IsTracked (record {
      log = Registered log' after events;
      history = t.history;
      asked = (add64 log'.next_sub_id 1, after) ∷ t.asked;
    })
register-IsTracked t log' after events v same subs below reach feed fits =
    let v' = same-IsTracked t log' v same subs in
    keep-IsTracked (with_log t log')
      (record {
        log = Registered log' after events;
        history = t.history;
        asked = (add64 log'.next_sub_id 1, after) ∷ t.asked;
      })
      v' refl (register-SameWindow log' after events)
      (register-tails log' t.asked t.history after events v'.tails (rw same.last_same below)
        (rw same.last_same reach) feed (rw same.limits_same fits))
