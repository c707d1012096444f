-- ===== src/Log/Evict.antt =====
-- event/log.go, the eviction loop of Append: it ends before the log is empty of what it needs, and
-- evicts no more than it must.
use spice_agent.Base.{
  ℕ, ◌+◌, ◌-◌, ◌≤◌, ◌<◌, ◌≡◌, refl, ap, ◌⊎◌, inl, inr, ◌||◌, Bool-cases, ltb, leb, length, List, [],
  ◌∷◌, ◌++◌, some, arith, add64,
}
use spice_agent.Log.Types.{LogEntry}
use spice_agent.Log.Subscription.{total_bytes}
use spice_agent.Log.Store.{Window, evict}

pub total_bytes-append :
    (xs ys : List LogEntry) → total_bytes (xs ++ ys) ≡ total_bytes xs + total_bytes ys
unfolding total_bytes
total_bytes-append [] ys = omega arith
total_bytes-append (x ∷ xs) ys = omega (arith, total_bytes-append xs ys)

-- Each dropped entry stood in the way: with it the window was too long or too heavy.
abbrev pub IsForced : ℕ → ℕ → List LogEntry → List LogEntry → Type 0
IsForced max_events room [] kept = Unit {0}
IsForced max_events room (x ∷ xs) kept =
    ((max_events ≤ length (x ∷ xs ++ kept)) ⊎ (room < total_bytes (x ∷ xs ++ kept)))
    × IsForced max_events room xs kept

pub record Evicted (max_events room : ℕ) (es : List LogEntry) (w : Window) : Type 0 where
  pub dropped : List LogEntry
  pub split : es ≡ dropped ++ w.entries
  pub summed : w.bytes ≡ total_bytes w.entries
  pub short : length w.entries < max_events
  pub light : w.bytes ≤ room
  pub forced : IsForced max_events room dropped w.entries

pub evict_lem :
    (max_events room : ℕ) (es : List LogEntry) (bytes events evicted : ℕ)
    → 0 < max_events
    → bytes ≡ total_bytes es
    → (w : Window) × (evict max_events room es bytes events evicted ≡ some w)
      × Evicted max_events room es w
unfolding evict total_bytes
evict_lem max_events room [] bytes events evicted pos sum = (
  record { entries = []; bytes = bytes; evicted_events = events; evicted_bytes = evicted },
  ground arith,
  record {
    dropped = [];
    split = refl;
    summed = sum;
    short = omega arith;
    light = omega arith;
    forced = tt;
  },
)
evict_lem max_events room (e ∷ es) bytes events evicted pos sum =
    elim (Bool-cases (leb max_events (length (e ∷ es)) || ltb room bytes)) [
      | inl over ↦
          let (w, run, r) =
            evict_lem max_events room es (bytes - e.bytes) (add64 events 1) (add64 evicted e.bytes)
              pos (omega arith) in
          (
            w,
            rw over run,
            record {
              dropped = e ∷ r.dropped;
              split = ap (λ l. e ∷ l) r.split;
              summed = r.summed;
              short = r.short;
              light = r.light;
              forced = (rw (← r.split) (ground arith), r.forced);
            },
          )
      | inr fits ↦ (
        record {
          entries = e ∷ es;
          bytes = bytes;
          evicted_events = events;
          evicted_bytes = evicted;
        },
        rw fits,
        record {
          dropped = [];
          split = refl;
          summed = sum;
          short = ground arith;
          light = ground arith;
          forced = tt;
        },
      )
    ]

-- Nothing is evicted from a window that is short and light enough.
pub evict_idle :
    (max_events room : ℕ) (es : List LogEntry) (bytes events evicted : ℕ)
    → length es < max_events
    → bytes ≤ room
    → evict max_events room es bytes events evicted
      ≡ some
          (record { entries = es; bytes = bytes; evicted_events = events; evicted_bytes = evicted })
unfolding evict
evict_idle max_events room [] bytes events evicted h l = ground arith
evict_idle max_events room (e ∷ es) bytes events evicted h l = ground arith
