-- ===== src/Log/Replay.antt =====
-- event/log.go: bounded replay pages and the registration of live tails.
use spice_agent.Base.{
  ℕ, ◌+◌, ◌-◌, Bool, true, false, ◌&&◌, ◌||◌, if◌then◌else◌, ltb, leb, ◌==◌, length, not, List, [],
  ◌∷◌, Option, none, some, Result, ok, err, ContextError, add64, sub64,
}
use spice_agent.Log.Types.{
  LogEntry, new_resource_exhausted, LogLimits, LogError, event_replay_bytes, event_replay_events,
  out_of_range, max_events_range, max_bytes_range, no_progress, no_recovery_entry, context_done,
}
use spice_agent.Log.Subscription.{Subscription, new_subscription, total_bytes, finish}
use spice_agent.Log.Store.{Log, bounds}

pub record ReplayRequest : Type 0 where
  pub after_sequence : ℕ
  pub max_events : ℕ
  pub max_bytes : ℕ
  pub tail : Bool

-- replayCursorOutside
unfoldable pub replay_cursor_outside : ℕ → ℕ → ℕ → Bool
replay_cursor_outside after earliest latest =
    if earliest == add64 latest 1
    then not (after == latest)
    else ltb latest after || ltb after (sub64 earliest 1)

-- The loop of replayPageLocked: the entries taken, or the size of one that no page can hold.
pub data Taken : Type 0 where
  taken : List LogEntry → Taken
  too_large : ℕ → Taken

-- `count` and `bytes` measure what is already taken.
unfoldable pub take_page : ReplayRequest → List LogEntry → ℕ → ℕ → Taken
take_page r [] count bytes = taken []
take_page r (e ∷ es) count bytes =
    let skip = take_page r es count bytes in
    let more : Taken = elim (take_page r es (count + 1) (bytes + e.bytes)) [
      | taken page ↦ taken (e ∷ page)
      | too_large size ↦ too_large size
    ] in
    if leb e.envelope.sequence r.after_sequence
    then skip
    else if count == r.max_events
    then taken []
    else if ltb r.max_bytes e.bytes || ltb (r.max_bytes - e.bytes) bytes
    then (if count == 0 then too_large e.bytes else taken [])
    else more

-- The sequence of the last entry of a page, or the cursor.
unfoldable pub page_last : ℕ → List LogEntry → ℕ
page_last after [] = after
page_last after (e ∷ es) = page_last e.envelope.sequence es

pub record Page : Type 0 where
  pub earliest : ℕ
  pub latest : ℕ
  pub page_last_sequence : ℕ
  pub events : List LogEntry
  pub has_more : Bool

unfoldable pub count_exhaustion : Log → Log
count_exhaustion log = record log {
  stats = record (log.stats) {
    subscription_exhaustions = add64 log.stats.subscription_exhaustions 1;
  };
}

-- The end of replayPageLocked: HasMore, or the failure to make progress.
unfoldable pub finish_page : Log → ReplayRequest → List LogEntry → Result LogError Page
unfolding page_last
finish_page log r page =
    let (earliest, latest) = bounds log in
    let last = page_last r.after_sequence page in
    let result : Bool → Page = λ more. record {
      earliest = earliest;
      latest = latest;
      page_last_sequence = last;
      events = page;
      has_more = more;
    } in
    if ltb last latest
    then (if length page == 0 then err no_progress else ok (result true))
    else ok (result false)

-- replayPageLocked
unfoldable pub replay_page : Log → ReplayRequest → Log × Result LogError Page
unfolding replay_cursor_outside count_exhaustion take_page finish_page
replay_page log r =
    let (earliest, latest) = bounds log in
    if replay_cursor_outside r.after_sequence earliest latest
    then (
      log,
      err (
          out_of_range (record {
            requested_after = r.after_sequence;
            earliest = earliest;
            latest = latest;
            recovery_after = if ltb r.after_sequence earliest then sub64 earliest 1 else latest;
          })),
    )
    else elim (take_page r log.entries 0 0) [
      | too_large size ↦ (
        count_exhaustion log,
        err (
            new_resource_exhausted r.after_sequence r.max_events r.max_bytes event_replay_bytes
              r.max_bytes size),
      )
      | taken page ↦ (log, finish_page log r page)
    ]

-- registerSubscriptionLocked: the new log, the identity and the subscription. On a closed log the
-- subscription is finished at once and does not enter the map.
unfoldable pub register : Log → ℕ → List LogEntry → Log × ℕ × Subscription
register log after replay =
    let id = add64 log.next_sub_id 1 in
    let fresh = new_subscription after log.limits replay in
    if log.closed
    then (record log { next_sub_id = id }, id, finish fresh)
    else (record log { next_sub_id = id; subscribers = (id, fresh) ∷ log.subscribers }, id, fresh)

-- The onDone of a subscription: `delete(log.subscribers, id)`.
unfoldable pub delete_subscriber : ℕ → List (ℕ × Subscription) → List (ℕ × Subscription)
delete_subscriber id [] = []
delete_subscriber id ((j, s) ∷ ss) =
    let rest = delete_subscriber id ss in if j == id then rest else (j, s) ∷ rest

unfoldable pub on_done : ℕ → Log → Log
unfolding delete_subscriber
on_done id log = record log { subscribers = delete_subscriber id log.subscribers }

-- The end of Replay: the tail is registered on the last page, with nothing to replay.
unfoldable pub with_tail :
    ReplayRequest → Log → Page → Log × Result LogError (Page × Option (ℕ × Subscription))
unfolding register
with_tail r log page =
    if r.tail && not page.has_more && not log.closed
    then (let (log', id, s) = register log page.page_last_sequence [] in
        (log', ok (page, some (id, s))))
    else (log, ok (page, none))

-- Replay, after replayPageLocked.
unfoldable pub finish_replay :
    ReplayRequest
    → Log
    → Result LogError Page
    → Log × Result LogError (Page × Option (ℕ × Subscription))
unfolding with_tail
finish_replay r log (err e) = (log, err e)
finish_replay r log (ok page) = with_tail r log page

-- Replay; the context's error comes first.
unfoldable pub replay :
    Option ContextError
    → Log
    → ReplayRequest
    → Log × Result LogError (Page × Option (ℕ × Subscription))
unfolding finish_replay
replay (some c) log r = (log, err (context_done c))
replay none log r =
    if ltb r.max_events 1 || ltb log.limits.subscriber_max_events r.max_events
    then (log, err max_events_range)
    else if ltb r.max_bytes 1 || ltb log.limits.subscriber_max_bytes r.max_bytes
    then (log, err max_bytes_range)
    else let p = replay_page log r in finish_replay r p.0 p.1

-- The first retained entry after a cursor, by its size.
unfoldable pub first_after : ℕ → List LogEntry → Option ℕ
first_after cursor [] = none
first_after cursor (e ∷ es) =
    let rest = first_after cursor es in
    if ltb cursor e.envelope.sequence then some e.bytes else rest

-- replayExhaustionLocked
unfoldable pub replay_exhaustion : Log → ℕ → List LogEntry → LogError
unfolding first_after
replay_exhaustion log last page =
    let max_events = log.limits.subscriber_max_events in
    let max_bytes = log.limits.subscriber_max_bytes in
    if leb max_events (length page)
    then new_resource_exhausted last max_events max_bytes event_replay_events max_events
        (length page + 1)
    else elim (first_after last log.entries) [
      | none ↦ no_recovery_entry
      | some size ↦
          new_resource_exhausted last max_events max_bytes event_replay_bytes max_bytes
            (total_bytes page + size)
    ]

-- The request that Subscribe makes.
abbrev pub whole_tail : LogLimits → ℕ → ReplayRequest
whole_tail limits after = record {
  after_sequence = after;
  max_events = limits.subscriber_max_events;
  max_bytes = limits.subscriber_max_bytes;
  tail = true;
}

-- Subscribe, after replayPageLocked.
unfoldable pub finish_subscribe :
    ℕ → Log → Result LogError Page → Log × Result LogError (ℕ × Subscription)
unfolding register replay_exhaustion
finish_subscribe after log (err e) = (log, err e)
finish_subscribe after log (ok page) =
    if page.has_more
    then (count_exhaustion log, err (replay_exhaustion log page.page_last_sequence page.events))
    else (let (log', id, s) = register log after page.events in (log', ok (id, s)))

-- Subscribe
unfoldable pub subscribe : Option ContextError → Log → ℕ → Log × Result LogError (ℕ × Subscription)
unfolding finish_subscribe
subscribe (some c) log after = (log, err (context_done c))
subscribe none log after =
    let p = replay_page log (whole_tail log.limits after) in finish_subscribe after p.0 p.1
