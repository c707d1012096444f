-- ===== src/Log/Invariant.antt =====
-- event/log.go: what holds of a log between two calls.
use spice_agent.Base.{
  ℕ, suc, ◌+◌, ◌≤◌, ◌<◌, ◌≡◌, ◌≢◌, refl, ap, false, length, length-append, List, [], ◌∷◌, ◌++◌,
  arith, All, Bytes, max_u64, ok, All-append,
}
use spice_agent.Event.Envelope.{Envelope}
use spice_agent.Log.Types.{LogEntry, LogLimits}
use spice_agent.Log.Subscription.{total_bytes}
use spice_agent.Log.Store.{
  Log, Window, bad_limits, empty_log, new_log_after, admit, append_max_events, append_max_bytes,
}
use spice_agent.Log.Evict.{total_bytes-append, Evicted}

-- Positive sequences without a gap, the last of them `last`.
abbrev pub NumberedTo : List LogEntry → ℕ → Type 0
NumberedTo [] last = Unit {0}
NumberedTo (e ∷ es) last =
    (e.envelope.sequence + length es ≡ last) × (0 < e.envelope.sequence) × NumberedTo es last

pub NumberedTo-snoc :
    (es : List LogEntry) (e : LogEntry) (last : ℕ)
    → NumberedTo es last
    → e.envelope.sequence ≡ suc last
    → NumberedTo (es ++ e ∷ []) e.envelope.sequence
NumberedTo-snoc [] e last n h = omega arith
NumberedTo-snoc (x ∷ es) e last (s, p, n) h =
    (omega (arith, length-append es (e ∷ [])), p, NumberedTo-snoc es e last n h)

pub NumberedTo-suffix :
    (xs ys : List LogEntry) (last : ℕ) → NumberedTo (xs ++ ys) last → NumberedTo ys last
NumberedTo-suffix [] ys last n = n
NumberedTo-suffix (x ∷ xs) ys last (s, p, n) = NumberedTo-suffix xs ys last n

abbrev pub InRun : Bytes → LogEntry → Type 0
InRun run e = e.envelope.run_id ≡ run

pub All-suffix : (P : LogEntry → Type 0) (xs ys : List LogEntry) → All P (xs ++ ys) → All P ys
All-suffix P [] ys h = h
All-suffix P (x ∷ xs) ys h = All-suffix P xs ys h.1

pub record IsWellFormed (log : Log) : Type 0 where
  pub limits_good : bad_limits log.limits ≡ false
  pub numbered : NumberedTo log.entries log.last_sequence
  pub in_run : All (InRun log.run_id) log.entries
  pub summed : log.bytes ≡ total_bytes log.entries
  pub few : length log.entries ≤ log.limits.max_events
  pub light : log.bytes ≤ log.limits.max_bytes
  pub representable : log.last_sequence ≤ max_u64
  pub empty_below : log.entries ≡ [] → log.last_sequence < max_u64

-- What the limits promise to the code that uses them.
pub record AreUsable (limits : LogLimits) : Type 0 where
  pub some_events : 2 ≤ limits.max_events
  pub some_bytes : 1024 ≤ limits.max_bytes
  pub reserve_events : 0 < limits.terminal_reserve_events
  pub under_events : limits.terminal_reserve_events < limits.max_events
  pub reserve_bytes : 0 < limits.terminal_reserve_bytes
  pub under_bytes : limits.terminal_reserve_bytes < limits.max_bytes
  pub page_events : 0 < limits.subscriber_max_events
  pub page_bytes : 0 < limits.subscriber_max_bytes

pub limits_usable : (limits : LogLimits) → bad_limits limits ≡ false → AreUsable limits
unfolding bad_limits
limits_usable limits h = ground arith

pub append_max_events_pos :
    (limits : LogLimits) (e : Envelope) → AreUsable limits → 0 < append_max_events limits e
unfolding append_max_events
append_max_events_pos limits e u = ground arith

pub append_max_events-le :
    (limits : LogLimits) (e : Envelope) → append_max_events limits e ≤ limits.max_events
unfolding append_max_events
append_max_events-le limits e = ground arith

pub append_max_bytes-le :
    (limits : LogLimits) (e : Envelope) → append_max_bytes limits e ≤ limits.max_bytes
unfolding append_max_bytes
append_max_bytes-le limits e = ground arith

pub empty_log-IsWellFormed :
    (run : Bytes) (last : ℕ) (limits : LogLimits)
    → last < max_u64
    → bad_limits limits ≡ false
    → IsWellFormed (empty_log run last limits)
unfolding empty_log total_bytes
empty_log-IsWellFormed run last limits h good = record {
  limits_good = good;
  numbered = tt;
  in_run = tt;
  summed = refl;
  few = omega arith;
  light = omega arith;
  representable = omega arith;
  empty_below = λ _. h;
}

-- What NewLogAfter answers with is the empty log, for limits and a cursor that passed the tests.
pub new_log_after-inv :
    (run : Bytes) (last : ℕ) (limits : LogLimits) (log : Log)
    → new_log_after run last limits ≡ ok log
    → (log ≡ empty_log run last limits) × (bad_limits limits ≡ false) × (last ≢ max_u64)
unfolding new_log_after
new_log_after-inv run last limits log e = ground arith

-- The log after the eviction and the entry is well formed, if the entry fits.
pub admit-IsWellFormed :
    (log : Log) (entry : LogEntry) (max_events room : ℕ) (w : Window)
    → IsWellFormed log
    → Evicted max_events room log.entries w
    → max_events ≤ log.limits.max_events
    → room + entry.bytes ≤ log.limits.max_bytes
    → entry.envelope.run_id ≡ log.run_id
    → entry.envelope.sequence ≡ suc log.last_sequence
    → log.last_sequence < max_u64
    → IsWellFormed (admit log entry w)
unfolding admit total_bytes
admit-IsWellFormed log entry max_events room w v r me mb run seq below = record {
  limits_good = v.limits_good;
  numbered =
      NumberedTo-snoc w.entries entry log.last_sequence
        (NumberedTo-suffix r.dropped w.entries log.last_sequence (rw r.split at v.numbered)) seq;
  in_run =
      All-append (InRun log.run_id) w.entries (entry ∷ [])
        (All-suffix (InRun log.run_id) r.dropped w.entries (rw r.split at v.in_run)) (run, tt);
  summed = omega (arith, r.summed, total_bytes-append w.entries (entry ∷ []));
  few = omega (arith, r.short, length-append w.entries (entry ∷ []));
  light = omega (arith, r.light);
  representable = omega arith;
  empty_below = λ e. absurd (omega (arith, ap length e, length-append w.entries (entry ∷ [])));
}
