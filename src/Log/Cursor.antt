-- ===== src/Log/Cursor.antt =====
-- event/log.go, boundsLocked and replayCursorOutside: the cursors that a log can replay from.
use spice_agent.Base.{
  ℕ, suc, ◌+◌, ◌≤◌, ◌<◌, ◌≡◌, ◌↔◌, refl, ◌⊎◌, true, false, length, List, [], ◌∷◌, arith, max_u64,
  add64, sub64,
}
use spice_agent.Log.Types.{LogEntry}
use spice_agent.Log.Store.{Log, bounds}
use spice_agent.Log.Replay.{replay_cursor_outside}
use spice_agent.Log.Invariant.{NumberedTo, IsWellFormed}

-- The first retained sequence, or the next one where none is retained.
abbrev pub first_of_log : ℕ → List LogEntry → ℕ
first_of_log last [] = suc last
first_of_log last (e ∷ es) = e.envelope.sequence

bounds_of_entries :
    (log : Log) (es : List LogEntry)
    → log.entries ≡ es
    → (es ≡ [] → log.last_sequence < max_u64)
    → bounds log ≡ (first_of_log log.last_sequence es, log.last_sequence)
unfolding bounds add64
bounds_of_entries log [] e h = ground (arith, h refl)
bounds_of_entries log (x ∷ es) e h = ground arith

pub bounds-IsWellFormed :
    (log : Log)
    → IsWellFormed log
    → bounds log ≡ (first_of_log log.last_sequence log.entries, log.last_sequence)
bounds-IsWellFormed log v = bounds_of_entries log log.entries refl v.empty_below

pub first_of_log-bounds :
    (last : ℕ) (es : List LogEntry)
    → NumberedTo es last
    → (0 < first_of_log last es) × (first_of_log last es ≤ suc last)
first_of_log-bounds last [] n = omega arith
first_of_log-bounds last (e ∷ es) n = omega arith

-- A cursor is inside when no event between it and the first retained one is missing, and it is not
-- ahead of the log.
pub cursor_outside_iff :
    (after last : ℕ) (es : List LogEntry)
    → NumberedTo es last
    → last ≤ max_u64
    → (es ≡ [] → last < max_u64)
    → (replay_cursor_outside after (first_of_log last es) last ≡ true)
      ↔ ((last < after) ⊎ (suc after < first_of_log last es))
unfolding replay_cursor_outside add64 sub64
cursor_outside_iff after last [] n h below = ground (arith, below refl)
cursor_outside_iff after last (e ∷ es) n h below = ground arith

-- The distance form of the same.
pub first_of_log-length :
    (last : ℕ) (es : List LogEntry)
    → NumberedTo es last
    → first_of_log last es + length es ≡ suc last
first_of_log-length last [] n = omega arith
first_of_log-length last (e ∷ es) n = omega arith

pub cursor_inside :
    (after last : ℕ) (es : List LogEntry)
    → NumberedTo es last
    → last ≤ max_u64
    → (es ≡ [] → last < max_u64)
    → replay_cursor_outside after (first_of_log last es) last ≡ false
    → (after ≤ last) × (first_of_log last es ≤ suc after)
unfolding replay_cursor_outside add64 sub64
cursor_inside after last [] n h below o = ground (arith, below refl)
cursor_inside after last (e ∷ es) n h below o = ground arith

pub first_of_log-lt :
    (last : ℕ) (es : List LogEntry)
    → NumberedTo es last
    → last ≤ max_u64
    → (es ≡ [] → last < max_u64)
    → first_of_log last es ≤ max_u64
first_of_log-lt last [] n h below = below refl
first_of_log-lt last (e ∷ es) n h below = omega arith
