-- ===== src/Log/Reserve.antt =====
-- event/log.go, Append: the room that is kept for terminal events.
use spice_agent.Base.{
  ℕ, suc, ◌+◌, ◌-◌, ◌≤◌, ◌<◌, ◌≡◌, refl, sym, ◌∙◌, inl, inr, true, false, length, length-append,
  List, [], ◌∷◌, ◌++◌, Option, some, none, arith, max_u64, append-nil, append_assoc, Bytes,
}
use spice_agent.Event.Envelope.{Envelope, terminal}
use spice_agent.Log.Types.{LogEntry, LogLimits}
use spice_agent.Log.Store.{
  Log, Window, append_sized, append_fitting, admit, append_max_events, append_max_bytes,
}
use spice_agent.Log.Evict.{evict_idle}
use spice_agent.Log.Invariant.{IsWellFormed, limits_usable}
use spice_agent.Log.Append.{Accepts, entry_of, append_cases, append_accepted, append_sized_fitting}

-- An accepted event, by the answer of Append.
pub Accepts-of :
    (log log' : Log) (envelope : Envelope) (size : ℕ)
    → log.last_sequence ≤ max_u64
    → append_sized log envelope size ≡ some (log', none)
    → Accepts log envelope size
Accepts-of log log' envelope size h run = elim (append_cases log envelope size h) [
  | inl a ↦ a
  | inr (other, e, refused, _, _) ↦ cc
]

-- Room for `events` more entries of `bytes` bytes together.
pub record HasRoom (log : Log) (events bytes : ℕ) : Type 0 where
  pub for_events : length log.entries + events ≤ log.limits.max_events
  pub for_bytes : log.bytes + bytes ≤ log.limits.max_bytes

max_of_terminal :
    (limits : LogLimits) (envelope : Envelope)
    → terminal envelope ≡ true
    → (append_max_events limits envelope ≡ limits.max_events)
      × (append_max_bytes limits envelope ≡ limits.max_bytes)
unfolding append_max_events append_max_bytes
max_of_terminal limits envelope t = (rw t, rw t)

max_of_other :
    (limits : LogLimits) (envelope : Envelope)
    → terminal envelope ≡ false
    → (append_max_events limits envelope ≡ limits.max_events - limits.terminal_reserve_events)
      × (append_max_bytes limits envelope ≡ limits.max_bytes - limits.terminal_reserve_bytes)
unfolding append_max_events append_max_bytes
max_of_other limits envelope t = (rw t, rw t)

-- The window of a log that evicts nothing.
abbrev whole : Log → Window
whole log = record {
  entries = log.entries;
  bytes = log.bytes;
  evicted_events = log.stats.evicted_events;
  evicted_bytes = log.stats.evicted_bytes;
}

append_fitting_idle :
    (log : Log) (entry : LogEntry) (max_events max_bytes : ℕ)
    → length log.entries < max_events
    → log.bytes ≤ max_bytes - entry.bytes
    → append_fitting log entry max_events max_bytes ≡ some (admit log entry (whole log), none)
unfolding append_fitting
append_fitting_idle log entry max_events max_bytes h l = rw (
  evict_idle max_events (max_bytes - entry.bytes) log.entries log.bytes log.stats.evicted_events
      log.stats.evicted_bytes h l,
  append_fitting,
)

append_terminal :
    (log : Log) (envelope : Envelope) (size events bytes : ℕ)
    → terminal envelope ≡ true
    → log.closed ≡ false
    → envelope.run_id ≡ log.run_id
    → envelope.sequence ≡ suc log.last_sequence
    → log.last_sequence < max_u64
    → HasRoom log (suc events) (size + bytes)
    → append_sized log envelope size ≡ some (admit log (entry_of envelope size) (whole log), none)
append_terminal log envelope size events bytes t op run seq below room =
    let (e, b) = max_of_terminal log.limits envelope t in
    append_sized_fitting log envelope size (record {
      still_open = op;
      same_run = run;
      next_in_line = seq;
      below_max = below;
      fits = omega (arith, b, room.for_bytes);
    })
    ∙ rw (e, b)
        (append_fitting_idle log (entry_of envelope size) log.limits.max_events log.limits.max_bytes
          (omega (arith, room.for_events)) (omega (arith, room.for_bytes)))

-- A run of terminal events, each the next in line.
abbrev pub AreTerminals : Bytes → ℕ → List (Envelope × ℕ) → Type 0
AreTerminals run last [] = Unit {0}
AreTerminals run last ((envelope, size) ∷ es) =
    (terminal envelope ≡ true)
    × (envelope.run_id ≡ run)
    × (envelope.sequence ≡ suc last)
    × AreTerminals run (suc last) es

abbrev pub sizes : List (Envelope × ℕ) → ℕ
sizes [] = 0
sizes ((envelope, size) ∷ es) = size + sizes es

abbrev pub entries_of : List (Envelope × ℕ) → List LogEntry
entries_of [] = []
entries_of ((envelope, size) ∷ es) = entry_of envelope size ∷ entries_of es

-- Append, called for each event; `none` when one is refused or panics.
abbrev pub append_all : Log → List (Envelope × ℕ) → Option Log
append_all log [] = some log
append_all log ((envelope, size) ∷ es) = elim (append_sized log envelope size) [
  | some (log', none) ↦ append_all log' es
  | _ ↦ none
]

append_terminals :
    (log : Log) (es : List (Envelope × ℕ))
    → log.closed ≡ false
    → AreTerminals log.run_id log.last_sequence es
    → log.last_sequence + length es ≤ max_u64
    → HasRoom log (length es) (sizes es)
    → (log' : Log) × (append_all log es ≡ some log') × (log'.entries ≡ log.entries ++ entries_of es)
unfolding admit
append_terminals log [] op t below room = (log, refl, sym (append-nil log.entries))
append_terminals log ((envelope, size) ∷ es) op (t, run, seq, ts) below room =
    let here =
      append_terminal log envelope size (length es) (sizes es) t op run seq (omega arith) room in
    let next = admit log (entry_of envelope size) (whole log) in
    let (log', done, kept) = append_terminals next es op (rw seq ts) (omega (arith, seq)) (record {
      for_events =
          omega (arith, room.for_events, length-append log.entries (entry_of envelope size ∷ []));
      for_bytes = omega (arith, room.for_bytes);
    }) in
    (
      log',
      rw (here, append_all) done,
      kept ∙ append_assoc log.entries (entry_of envelope size ∷ []) (entries_of es),
    )

-- The reserve. After an accepted event that is not terminal, the log takes terminal events as far as
-- the reserve goes, in number and in bytes together, and evicts nothing for them.
pub terminal_reserve :
    (log log' : Log) (envelope : Envelope) (size : ℕ) (es : List (Envelope × ℕ))
    → IsWellFormed log
    → append_sized log envelope size ≡ some (log', none)
    → terminal envelope ≡ false
    → AreTerminals log'.run_id log'.last_sequence es
    → log'.last_sequence + length es ≤ max_u64
    → length es ≤ log.limits.terminal_reserve_events
    → sizes es ≤ log.limits.terminal_reserve_bytes
    → (final : Log) × (append_all log' es ≡ some final)
      × (final.entries ≡ log'.entries ++ entries_of es)
unfolding admit
terminal_reserve log log' envelope size es v run t ts below few light =
    let a = Accepts-of log log' envelope size v.representable run in
    let (w, done, r) = append_accepted log envelope size v a in
    let u = limits_usable log.limits v.limits_good in
    let (e, b) = max_of_other log.limits envelope t in
    let same : log' ≡ admit log (entry_of envelope size) w = cc in
    append_terminals log' es (rw same a.still_open) ts below (
      rw same (record {
        for_events = omega (
          arith,
          r.short,
          e,
          few,
          u.under_events,
          length-append w.entries (entry_of envelope size ∷ []),
        );
        for_bytes = omega (arith, r.light, b, light, a.fits, u.under_bytes);
      }))
