-- ===== src/Log/Append.antt =====
-- event/log.go, Append: which events a log takes, what it evicts for them, and what it keeps in
-- reserve for terminal events.
use spice_agent.Base.{
  ℕ, suc, ◌-◌, ◌≤◌, ◌<◌, ◌≡◌, ◌≢◌, refl, ◌⊎◌, inl, inr, true, false, ◌||◌, Bool-cases, ltb, Option,
  some, none, arith, add64, not, ◌∙◌, bytes_eq, bytes_eq_iff, List, [], ◌∷◌, ◌++◌, length,
  length-append, max_u64, add64_exact, ◌==◌,
}
use spice_agent.Event.Envelope.{Envelope}
use spice_agent.Log.Types.{
  LogEntry, LogStats, LogError, new_resource_exhausted, event_log_bytes, log_closed, run_mismatch,
  sequence_mismatch, exhausted,
}
use spice_agent.Log.Store.{
  Log, Window, append_sized, offer_all, append_fitting, append_exhausted, admit, append_max_events,
  append_max_bytes,
}
use spice_agent.Log.Evict.{evict_lem, Evicted, IsForced, total_bytes-append}
use spice_agent.Log.Subscription.{total_bytes}
use spice_agent.Log.Invariant.{
  IsWellFormed, limits_usable, append_max_events_pos, append_max_events-le, append_max_bytes-le,
  admit-IsWellFormed,
}

-- What Append asks of an event.
pub record Accepts (log : Log) (envelope : Envelope) (size : ℕ) : Type 0 where
  pub still_open : log.closed ≡ false
  pub same_run : envelope.run_id ≡ log.run_id
  pub next_in_line : envelope.sequence ≡ suc log.last_sequence
  pub below_max : log.last_sequence < max_u64
  pub fits : size ≤ append_max_bytes log.limits envelope

abbrev pub entry_of : Envelope → ℕ → LogEntry
entry_of envelope size = record { envelope = envelope; bytes = size }

pub append_sized_fitting :
    (log : Log) (envelope : Envelope) (size : ℕ)
    → Accepts log envelope size
    → append_sized log envelope size
      ≡ append_fitting log
          (entry_of envelope size)
          (append_max_events log.limits envelope)
          (append_max_bytes log.limits envelope)
unfolding append_sized
append_sized_fitting log envelope size a =
    ground (arith, bytes_eq_iff envelope.run_id log.run_id, add64_exact log.last_sequence 1)

-- An event that the log takes: Append does not panic, and evicts only what stood in its way.
pub append_accepted :
    (log : Log) (envelope : Envelope) (size : ℕ)
    → IsWellFormed log
    → Accepts log envelope size
    → (w : Window) × (append_sized log envelope size
        ≡ some (admit log (entry_of envelope size) w, none))
      × Evicted
          (append_max_events log.limits envelope)
          (append_max_bytes log.limits envelope - size)
          log.entries
          w
unfolding append_fitting
append_accepted log envelope size v a =
    let max_events = append_max_events log.limits envelope in
    let room = append_max_bytes log.limits envelope - size in
    let usable = limits_usable log.limits v.limits_good in
    let (w, run, r) =
      evict_lem max_events room log.entries log.bytes log.stats.evicted_events
        log.stats.evicted_bytes (append_max_events_pos log.limits envelope usable) v.summed in
    (w, append_sized_fitting log envelope size a ∙ rw (run, append_fitting), r)

-- The log after Append has taken an event: of the entries from before, those that stood in the way of the
-- event's bounds are gone, and the event is the last one.
pub record HasTaken (log : Log) (envelope : Envelope) (size : ℕ) (log' : Log) : Type 0 where
  pub dropped : List LogEntry
  pub kept : List LogEntry
  pub split : log.entries ≡ dropped ++ kept
  pub stored : log'.entries ≡ kept ++ entry_of envelope size ∷ []
  pub latest : log'.last_sequence ≡ suc log.last_sequence
  pub weighed : log'.bytes ≡ total_bytes log'.entries
  pub short : length log'.entries ≤ append_max_events log.limits envelope
  pub light : log'.bytes ≤ append_max_bytes log.limits envelope
  pub forced :
      IsForced
        (append_max_events log.limits envelope)
        (append_max_bytes log.limits envelope - size)
        dropped
        kept
  pub offered :
      log'.subscribers
      ≡ (offer_all (entry_of envelope size) log.subscribers log.stats.slow_subscriber_disconnects).0

-- An open, well-formed log takes an event of its run with the next sequence and a size within the
-- bound: Append does not panic or fail, the event is the last entry and its sequence the last one, the
-- byte count is that of the entries, both bounds for the event hold, each entry that was dropped stood
-- in the way of them, and every subscriber was offered the event.
pub append-HasTaken :
    (log : Log) (envelope : Envelope) (size : ℕ)
    → IsWellFormed log
    → Accepts log envelope size
    → (log' : Log) × (append_sized log envelope size ≡ some (log', none))
      × HasTaken log envelope size log'
unfolding admit total_bytes
append-HasTaken log envelope size v a =
    let (w, run, r) = append_accepted log envelope size v a in
    (
      admit log (entry_of envelope size) w,
      run,
      record {
        dropped = r.dropped;
        kept = w.entries;
        split = r.split;
        stored = refl;
        latest = a.next_in_line;
        weighed =
            omega (arith, r.summed, total_bytes-append w.entries (entry_of envelope size ∷ []));
        short = omega (arith, r.short, length-append w.entries (entry_of envelope size ∷ []));
        light = omega (arith, r.light, a.fits);
        forced = r.forced;
        offered = refl;
      },
    )

-- Why Append answers with an error, by the error.
abbrev pub IsReason : Log → Envelope → ℕ → LogError → Type 0
IsReason log envelope size log_closed = log.closed ≡ true
IsReason log envelope size run_mismatch = (log.closed ≡ false) × (envelope.run_id ≢ log.run_id)
IsReason log envelope size sequence_mismatch =
    (log.closed ≡ false)
    × (envelope.run_id ≡ log.run_id)
    × ((log.last_sequence ≡ max_u64) ⊎ (envelope.sequence ≢ suc log.last_sequence))
IsReason log envelope size (exhausted x) =
    (append_max_bytes log.limits envelope < size)
    × (x.limit ≡ append_max_bytes log.limits envelope)
    × (x.observed ≡ size)
    × (x.last_delivered ≡ log.last_sequence)
IsReason log envelope size _ = ⊥

abbrev pub Refuses : Log → Envelope → ℕ → Type 0
Refuses log envelope size =
    (log' : Log) × (e : LogError) × (append_sized log envelope size ≡ some (log', some e))
    × (log' ≡ record log { stats = log'.stats })
    × IsReason log envelope size e

-- Append takes an event or refuses it for a reason, and then changes the statistics at most.
pub append_cases :
    (log : Log) (envelope : Envelope) (size : ℕ)
    → log.last_sequence ≤ max_u64
    → Accepts log envelope size ⊎ Refuses log envelope size
unfolding append_sized
append_cases log envelope size h = elim (Bool-cases log.closed) [
  | inl shut ↦ inr (log, log_closed, ground arith, refl, shut)
  | inr op ↦ elim (Bool-cases (bytes_eq envelope.run_id log.run_id)) [
    | inr other ↦ inr (
      log,
      run_mismatch,
      ground arith,
      refl,
      (op, ground (arith, bytes_eq_iff envelope.run_id log.run_id)),
    )
    | inl same ↦
        elim (Bool-cases
          (log.last_sequence == max_u64 || not (envelope.sequence == add64 log.last_sequence 1))) [
            | inl gap ↦ inr (
              log,
              sequence_mismatch,
              ground arith,
              refl,
              (op, (bytes_eq_iff _ _).0 same, ground (arith, add64_exact log.last_sequence 1)),
            )
            | inr next ↦ elim (Bool-cases (ltb (append_max_bytes log.limits envelope) size)) [
              | inl big ↦ inr (
                (append_exhausted log (append_max_events log.limits envelope)
                    (append_max_bytes log.limits envelope) size).0,
                new_resource_exhausted log.last_sequence (append_max_events log.limits envelope)
                    (append_max_bytes log.limits envelope) event_log_bytes
                    (append_max_bytes log.limits envelope) size,
                rw (op, same, next, big),
                refl,
                (ground arith, refl, refl, refl),
              )
              | inr fits ↦ inl (record {
                still_open = op;
                same_run = (bytes_eq_iff _ _).0 same;
                next_in_line = ground (arith, add64_exact log.last_sequence 1);
                below_max = ground arith;
                fits = ground arith;
              })
            ]
          ]
  ]
]

stats-IsWellFormed :
    (log : Log) (stats : LogStats) → IsWellFormed log → IsWellFormed (record log { stats = stats })
stats-IsWellFormed log stats v = record {
  limits_good = v.limits_good;
  numbered = v.numbered;
  in_run = v.in_run;
  summed = v.summed;
  few = v.few;
  light = v.light;
  representable = v.representable;
  empty_below = v.empty_below;
}

-- Append never panics, and keeps the log well formed whether it takes the event or not: consecutive
-- sequences up to the last one, the byte count, both bounds and the run.
pub append-IsWellFormed :
    (log : Log) (envelope : Envelope) (size : ℕ)
    → IsWellFormed log
    → (log' : Log) × (e : Option LogError) × (append_sized log envelope size ≡ some (log', e))
      × IsWellFormed log'
append-IsWellFormed log envelope size v = elim (append_cases log envelope size v.representable) [
  | inl a ↦
      let (w, run, r) = append_accepted log envelope size v a in
      (
        admit log (entry_of envelope size) w,
        none,
        run,
        admit-IsWellFormed log (entry_of envelope size) (append_max_events log.limits envelope) _ w
            v r (append_max_events-le log.limits envelope)
            (omega (arith, a.fits, append_max_bytes-le log.limits envelope)) a.same_run
            a.next_in_line a.below_max,
      )
  | inr (log', e, run, same, _) ↦ (log', some e, run, rw same (stats-IsWellFormed log log'.stats v))
]
