-- ===== src/Log/Subscription.antt =====
-- event/log.go: one subscription, with the state of its delivery goroutine. The lock of the
-- subscription makes `offer`, `finish`, `terminate` and each stage of `deliver` atomic.
use spice_agent.Base.{
  ℕ, ◌+◌, ◌-◌, Bool, true, false, ◌||◌, if◌then◌else◌, ltb, leb, ◌==◌, length, List, [], ◌∷◌, ◌++◌,
  Option, none, some, ContextError,
}
use spice_agent.Log.Types.{
  LogLimits, LogEntry, LogError, exhausted, context_done, new_resource_exhausted,
  event_subscription_events, event_subscription_bytes,
}

-- Where `deliver` stands: about to take the lock and look at the queue; at the select with the head
-- that it read; past the send, about to take the lock again; returned.
pub data Stage : Type 0 where
  waiting : Stage
  offering : LogEntry → Stage
  sent : LogEntry → Stage
  returned : Stage

-- `received` is what the consumer has got from the channel `events`; `aborted` says that `abort` is
-- closed.
pub record Subscription : Type 0 where
  pub queue : List LogEntry
  pub queued_bytes : ℕ
  pub max_events : ℕ
  pub max_bytes : ℕ
  pub terminal : Bool
  pub failure : Option LogError
  pub last_delivered : ℕ
  pub aborted : Bool
  pub stage : Stage
  pub received : List LogEntry

-- The sum that the loop of newSubscription adds up.
unfoldable pub total_bytes : List LogEntry → ℕ
total_bytes [] = 0
total_bytes (e ∷ es) = e.bytes + total_bytes es

-- newSubscription
unfoldable pub new_subscription : ℕ → LogLimits → List LogEntry → Subscription
new_subscription after limits replay = record {
  queue = replay;
  queued_bytes = total_bytes replay;
  max_events = limits.subscriber_max_events;
  max_bytes = limits.subscriber_max_bytes;
  terminal = false;
  failure = none;
  last_delivered = after;
  aborted = false;
  stage = waiting;
  received = [];
}

-- terminateLocked
unfoldable pub terminate : LogError → Subscription → Subscription
terminate e s = if s.terminal then s else record s {
  queue = [];
  queued_bytes = 0;
  terminal = true;
  failure = some e;
  aborted = true;
}

-- finish(nil), the only call of finish.
unfoldable pub finish : Subscription → Subscription
finish s = if s.terminal then s else record s { terminal = true; failure = none }

-- offer; the flag tells a slow subscriber that was disconnected.
unfoldable pub offer : LogEntry → Subscription → Subscription × Bool
unfolding terminate
offer e s =
    if s.terminal
    then (s, false)
    else if leb s.max_events (length s.queue)
    then (
      terminate
          (new_resource_exhausted s.last_delivered s.max_events s.max_bytes
            event_subscription_events s.max_events (length s.queue + 1))
          s,
      true,
    )
    else if ltb s.max_bytes e.bytes || ltb (s.max_bytes - e.bytes) s.queued_bytes
    then (
      terminate
          (new_resource_exhausted s.last_delivered s.max_events s.max_bytes event_subscription_bytes
            s.max_bytes (s.queued_bytes + e.bytes))
          s,
      true,
    )
    else (record s { queue = s.queue ++ e ∷ []; queued_bytes = s.queued_bytes + e.bytes }, false)

-- deliver, up to the select: read the head, wait while the queue is empty, return at its end.
unfoldable pub look : Subscription → List LogEntry → Subscription
look s [] = if s.terminal then record s { stage = returned } else s
look s (e ∷ es) = record s { stage = offering e }

-- deliver at the select, with the three cases that may be ready.
pub data Ready : Type 0 where
  abort_closed consumer_ready : Ready
  context_done_with : ContextError → Ready

unfoldable pub select_ready : Ready → LogEntry → Subscription → Subscription
unfolding terminate
select_ready abort_closed e s = if s.aborted then record s { stage = returned } else s
select_ready consumer_ready e s = record s { received = s.received ++ e ∷ []; stage = sent e }
select_ready (context_done_with c) e s = record (terminate (context_done c) s) { stage = returned }

-- The queue after the send: its head goes if it is still the entry that was sent.
unfoldable pub drop_sent : LogEntry → Subscription → List LogEntry → Subscription
drop_sent e s [] = s
drop_sent e s (x ∷ xs) =
    if x.envelope.sequence == e.envelope.sequence
    then record s { queue = xs; queued_bytes = s.queued_bytes - e.bytes }
    else s

-- `exhausted.LastDelivered = ...` when the failure is of that type.
unfoldable pub with_last_delivered : ℕ → Option LogError → Option LogError
with_last_delivered n (some (exhausted x)) = some (exhausted (record x { last_delivered = n }))
with_last_delivered n other = other

-- deliver, from the send to the next round.
unfoldable pub settle : LogEntry → Subscription → Subscription
unfolding drop_sent with_last_delivered
settle e s =
    let t = drop_sent e s s.queue in
    record t {
      last_delivered = e.envelope.sequence;
      failure = with_last_delivered e.envelope.sequence t.failure;
      stage = waiting;
    }

unfoldable pub deliver_at : Stage → Ready → Subscription → Subscription
unfolding look select_ready settle
deliver_at waiting ready s = look s s.queue
deliver_at (offering e) ready s = select_ready ready e s
deliver_at (sent e) ready s = settle e s
deliver_at returned ready s = s

-- One stage of the delivery goroutine; `ready` is read at the select only.
unfoldable pub deliver : Ready → Subscription → Subscription
unfolding deliver_at
deliver ready s = deliver_at s.stage ready s
