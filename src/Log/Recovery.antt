-- ===== src/Log/Recovery.antt =====
-- event/log.go, replayPageLocked as a whole: an answer, or an error that says how to go on.
use spice_agent.Base.{
  ℕ, suc, ◌<◌, ◌≡◌, refl, ◌⊎◌, inl, inr, Bool-cases, ltb, arith, sub64, sub64_exact, Result, ok,
  err, if◌then◌else◌,
}
use spice_agent.Log.Types.{
  LogError, out_of_range, OutOfRange, new_resource_exhausted, event_replay_bytes, exhausted,
}
use spice_agent.Log.Store.{Log}
use spice_agent.Log.Replay.{
  ReplayRequest, Taken, taken, too_large, take_page, Page, replay_page, finish_page,
  replay_cursor_outside, count_exhaustion,
}
use spice_agent.Log.Invariant.{IsWellFormed}
use spice_agent.Log.Cursor.{
  first_of_log, first_of_log-bounds, first_of_log-lt, cursor_inside, cursor_outside_iff,
  bounds-IsWellFormed,
}
use spice_agent.Log.Pages.{IsTooLarge, take_page_lem, PageResult}
use spice_agent.Log.Gapless.{IsInside, IsAnswer, finish_page_lem}

-- What an answer or an error of replayPageLocked tells of the log and the request.
abbrev pub IsOutcome : Log → ReplayRequest → Result LogError Page → Type 0
IsOutcome log r (ok page) = IsInside log r.after_sequence × IsAnswer log r page
IsOutcome log r (err (out_of_range x)) =
    (¬ IsInside log r.after_sequence)
    × (x.requested_after ≡ r.after_sequence)
    × (x.latest ≡ log.last_sequence)
    × (x.earliest ≡ first_of_log log.last_sequence log.entries)
    × IsInside log x.recovery_after
IsOutcome log r (err (exhausted x)) =
    IsInside log r.after_sequence
    × (x.resource ≡ event_replay_bytes)
    × (x.last_delivered ≡ r.after_sequence)
    × (x.limit ≡ r.max_bytes)
    × IsTooLarge r log.entries 0 0 x.observed
IsOutcome log r _ = ⊥

-- The branches of replay_page over the bounds of a well-formed log.
abbrev branch : (log : Log) (r : ReplayRequest) → Taken → Log × Result LogError Page
branch log r (taken page) = (log, finish_page log r page)
branch log r (too_large size) = (
  count_exhaustion log,
  err (
      new_resource_exhausted r.after_sequence r.max_events r.max_bytes event_replay_bytes
        r.max_bytes size),
)

abbrev recovery : Log → ReplayRequest → ℕ
recovery log r =
    let earliest = first_of_log log.last_sequence log.entries in
    if ltb r.after_sequence earliest then sub64 earliest 1 else log.last_sequence

abbrev outside_error : Log → ReplayRequest → OutOfRange
outside_error log r = record {
  requested_after = r.after_sequence;
  earliest = first_of_log log.last_sequence log.entries;
  latest = log.last_sequence;
  recovery_after = recovery log r;
}

replay_page-branches :
    (log : Log) (r : ReplayRequest)
    → IsWellFormed log
    → replay_page log r ≡ (
        if replay_cursor_outside r.after_sequence
          (first_of_log log.last_sequence log.entries)
          log.last_sequence
        then (log, err (out_of_range (outside_error log r)))
        else branch log r (take_page r log.entries 0 0))
unfolding replay_page
replay_page-branches log r v = rw (bounds-IsWellFormed log v)

recovery-IsInside :
    (log : Log) (r : ReplayRequest)
    → IsWellFormed log
    → (log.last_sequence < r.after_sequence)
      ⊎ (suc r.after_sequence < first_of_log log.last_sequence log.entries)
    → IsInside log (recovery log r)
recovery-IsInside log r v h =
    let small =
      first_of_log-lt log.last_sequence log.entries v.numbered v.representable v.empty_below in
    let bound = first_of_log-bounds log.last_sequence log.entries v.numbered in
    elim (Bool-cases (ltb r.after_sequence (first_of_log log.last_sequence log.entries))) [
      | inl low ↦
          rw
            (
              low,
              sub64_exact (first_of_log log.last_sequence log.entries) 1 (omega arith)
                  (omega arith),
            )
            (omega arith, omega arith)
      | inr high ↦ rw high (omega arith, omega arith)
    ]

branch-IsOutcome :
    (log : Log) (r : ReplayRequest) (t : Taken)
    → IsWellFormed log
    → 0 < r.max_events
    → IsInside log r.after_sequence
    → PageResult r log.entries 0 0 t
    → IsOutcome log r (branch log r t).1
branch-IsOutcome log r (too_large size) v pos inside p = (inside, refl, refl, refl, p)
branch-IsOutcome log r (taken page) v pos inside p =
    let (answer, run, holds) = finish_page_lem log r page v pos inside p in rw run (inside, holds)

-- Every answer of replayPageLocked is a page that continues the cursor without a gap, is as long as
-- both bounds allow, and says truly whether more follows. Every error is one of two: a cursor outside
-- the retained range, with a cursor inside it to recover from, or an event that is by itself above
-- the byte bound. The progress error does not arise.
pub replay_page-IsOutcome :
    (log : Log) (r : ReplayRequest)
    → IsWellFormed log
    → 0 < r.max_events
    → IsOutcome log r (replay_page log r).1
replay_page-IsOutcome log r v pos =
    let first = first_of_log log.last_sequence log.entries in
    let iff =
      cursor_outside_iff r.after_sequence log.last_sequence log.entries v.numbered v.representable
        v.empty_below in
    elim (Bool-cases (replay_cursor_outside r.after_sequence first log.last_sequence)) [
      | inl out ↦
          rw (replay_page-branches log r v, out)
            (omega (arith, iff.0 out), refl, refl, refl, recovery-IsInside log r v (iff.0 out))
      | inr inside ↦
          rw (replay_page-branches log r v, inside)
            (branch-IsOutcome log r _ v pos
              (cursor_inside r.after_sequence log.last_sequence log.entries v.numbered
                v.representable v.empty_below inside)
              (take_page_lem r log.entries 0 0 (omega arith) (omega arith)))
    ]
