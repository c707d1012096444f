-- ===== src/Log/Store.antt =====
-- event/log.go: the log, its construction, append with eviction, bounds and close. Every function is
-- what its Go namesake does while it holds the lock of the log.
use spice_agent.Base.{
  ℕ, ◌+◌, ◌-◌, Bool, true, false, ◌||◌, if◌then◌else◌, ltb, leb, ◌==◌, length, not, List, [], ◌∷◌,
  ◌++◌, Option, none, some, Result, ok, err, Bytes, bytes_eq, blank_or_padded, max_u64, add64,
}
use spice_agent.Event.Envelope.{Envelope, terminal, encoded_size}
use spice_agent.Log.Types.{
  LogLimits, LogEntry, LogStats, LogError, new_resource_exhausted, event_log_bytes, run_id_required,
  limits_invalid, cursor_unrepresentable, log_closed, run_mismatch, sequence_mismatch,
}
use spice_agent.Log.Subscription.{Subscription, offer, finish}

-- `subscribers` is the map from subscription identities; it holds the subscriptions themselves.
pub record Log : Type 0 where
  pub run_id : Bytes
  pub limits : LogLimits
  pub entries : List LogEntry
  pub bytes : ℕ
  pub last_sequence : ℕ
  pub closed : Bool
  pub next_sub_id : ℕ
  pub subscribers : List (ℕ × Subscription)
  pub stats : LogStats

-- The test on the limits in NewLogAfter.
unfoldable pub bad_limits : LogLimits → Bool
bad_limits limits =
    ltb limits.max_events 2
    || ltb limits.max_bytes 1024
    || ltb limits.terminal_reserve_events 1
    || leb limits.max_events limits.terminal_reserve_events
    || ltb limits.terminal_reserve_bytes 1
    || leb limits.max_bytes limits.terminal_reserve_bytes
    || ltb limits.subscriber_max_events 1
    || ltb limits.subscriber_max_bytes 1

abbrev pub no_stats : LogStats
no_stats = record {
  evicted_events = 0;
  evicted_bytes = 0;
  authoritative_exhaustions = 0;
  subscription_exhaustions = 0;
  slow_subscriber_disconnects = 0;
}

-- The log that NewLogAfter builds.
unfoldable pub empty_log : Bytes → ℕ → LogLimits → Log
empty_log run_id last limits = record {
  run_id = run_id;
  limits = limits;
  entries = [];
  bytes = 0;
  last_sequence = last;
  closed = false;
  next_sub_id = 0;
  subscribers = [];
  stats = no_stats;
}

-- NewLogAfter
unfoldable pub new_log_after : Bytes → ℕ → LogLimits → Result LogError Log
new_log_after run_id last limits =
    if blank_or_padded run_id
    then err run_id_required
    else if bad_limits limits
    then err limits_invalid
    else if last == max_u64
    then err cursor_unrepresentable
    else ok (empty_log run_id last limits)

-- NewLog
unfoldable pub new_log : Bytes → LogLimits → Result LogError Log
new_log run_id limits = new_log_after run_id 0 limits

-- What the eviction loop of Append works on.
pub record Window : Type 0 where
  pub entries : List LogEntry
  pub bytes : ℕ
  pub evicted_events : ℕ
  pub evicted_bytes : ℕ

-- `for len(log.entries) >= maxEvents || log.bytes > maxBytes-size { ... }`, where `room` is
-- maxBytes-size. `none` is the panic of log.entries[0] on an empty slice.
unfoldable pub evict : ℕ → ℕ → List LogEntry → ℕ → ℕ → ℕ → Option Window
evict max_events room [] bytes events evicted =
    if leb max_events 0 || ltb room bytes
    then none
    else some
        (record { entries = []; bytes = bytes; evicted_events = events; evicted_bytes = evicted })
evict max_events room (e ∷ es) bytes events evicted =
    let rest =
      evict max_events room es (bytes - e.bytes) (add64 events 1) (add64 evicted e.bytes) in
    if leb max_events (length (e ∷ es)) || ltb room bytes
    then rest
    else some (record {
      entries = e ∷ es;
      bytes = bytes;
      evicted_events = events;
      evicted_bytes = evicted;
    })

-- The offers at the end of Append, with the count of disconnected subscribers.
unfoldable pub offer_all : LogEntry → List (ℕ × Subscription) → ℕ → List (ℕ × Subscription) × ℕ
offer_all e [] slow = ([], slow)
offer_all e ((id, s) ∷ ss) slow =
    let (s', gone) = offer e s in
    let (ss', slow') = offer_all e ss (if gone then add64 slow 1 else slow) in
    ((id, s') ∷ ss', slow')

-- The bounds that Append applies to an event.
unfoldable pub append_max_events : LogLimits → Envelope → ℕ
append_max_events limits envelope =
    if terminal envelope
    then limits.max_events
    else limits.max_events - limits.terminal_reserve_events

unfoldable pub append_max_bytes : LogLimits → Envelope → ℕ
append_max_bytes limits envelope =
    if terminal envelope then limits.max_bytes else limits.max_bytes - limits.terminal_reserve_bytes

-- The log after the eviction: the entry goes in and the subscribers are offered it.
unfoldable pub admit : Log → LogEntry → Window → Log
unfolding offer_all
admit log entry window =
    let (subscribers, slow) =
      offer_all entry log.subscribers log.stats.slow_subscriber_disconnects in
    record log {
      entries = window.entries ++ entry ∷ [];
      bytes = window.bytes + entry.bytes;
      last_sequence = entry.envelope.sequence;
      subscribers = subscribers;
      stats = record (log.stats) {
        evicted_events = window.evicted_events;
        evicted_bytes = window.evicted_bytes;
        slow_subscriber_disconnects = slow;
      };
    }

-- The end of Append, for an event that fits its byte bound. `none` is a panic.
unfoldable pub append_fitting : Log → LogEntry → ℕ → ℕ → Option (Log × Option LogError)
unfolding evict admit
append_fitting log entry max_events max_bytes =
    elim (evict max_events (max_bytes - entry.bytes) log.entries log.bytes log.stats.evicted_events
      log.stats.evicted_bytes) [ none ↦ none | some window ↦ some (admit log entry window, none) ]

-- The refusal of an event above its byte bound.
unfoldable pub append_exhausted : Log → ℕ → ℕ → ℕ → Log × Option LogError
append_exhausted log max_events max_bytes size = (
  record log {
    stats = record (log.stats) {
      authoritative_exhaustions = add64 log.stats.authoritative_exhaustions 1;
    };
  },
  some (
      new_resource_exhausted log.last_sequence max_events max_bytes event_log_bytes max_bytes size),
)

-- Append, after the size of the envelope is known.
unfoldable pub append_sized : Log → Envelope → ℕ → Option (Log × Option LogError)
unfolding append_fitting append_exhausted append_max_events append_max_bytes
append_sized log envelope size =
    if log.closed
    then some (log, some log_closed)
    else if not (bytes_eq envelope.run_id log.run_id)
    then some (log, some run_mismatch)
    else if log.last_sequence == max_u64 || not (envelope.sequence == add64 log.last_sequence 1)
    then some (log, some sequence_mismatch)
    else let max_events = append_max_events log.limits envelope in
      let max_bytes = append_max_bytes log.limits envelope in
      if ltb max_bytes size
      then some (append_exhausted log max_events max_bytes size)
      else append_fitting log (record { envelope = envelope; bytes = size }) max_events max_bytes

-- Append
unfoldable pub append_event :
    (Envelope → Option Bytes) → Log → Envelope → Option (Log × Option LogError)
unfolding append_sized
append_event marshal log envelope = append_sized log envelope (encoded_size marshal envelope)

-- boundsLocked
bounds_of : ℕ → List LogEntry → ℕ × ℕ
bounds_of last [] = if last == max_u64 then (max_u64, max_u64) else (add64 last 1, last)
bounds_of last (e ∷ es) = (e.envelope.sequence, last)

unfoldable pub bounds : Log → ℕ × ℕ
unfolding bounds_of
bounds log = bounds_of log.last_sequence log.entries

unfoldable pub finish_all : List (ℕ × Subscription) → List (ℕ × Subscription)
finish_all [] = []
finish_all ((id, s) ∷ ss) = (id, finish s) ∷ finish_all ss

-- Close
unfoldable pub close_log : Log → Log
unfolding finish_all
close_log log =
    if log.closed
    then log
    else record log { closed = true; subscribers = finish_all log.subscribers }
