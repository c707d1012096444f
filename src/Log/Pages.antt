-- ===== src/Log/Pages.antt =====
-- event/log.go, the loop of replayPageLocked: a page is the longest prefix of what stands after the
-- cursor that both bounds allow.
use spice_agent.Base.{
  ℕ, ◌+◌, ◌-◌, ◌≤◌, ◌<◌, ◌≡◌, refl, ap, ◌⊎◌, inl, inr, true, false, ◌||◌, Bool-cases, if◌then◌else◌,
  ltb, leb, ◌==◌, length, List, [], ◌∷◌, ◌++◌, arith,
}
use spice_agent.Log.Types.{LogEntry}
use spice_agent.Log.Subscription.{total_bytes}
use spice_agent.Log.Replay.{ReplayRequest, Taken, taken, too_large, take_page}

-- The entries behind a cursor.
abbrev pub after_cursor : ℕ → List LogEntry → List LogEntry
after_cursor after [] = []
after_cursor after (e ∷ es) =
    if leb e.envelope.sequence after then after_cursor after es else e ∷ after_cursor after es

-- Why a page ends: nothing is left, it holds enough events, or it holds some and the next one is too
-- heavy for it.
abbrev pub IsFull : ReplayRequest → ℕ → ℕ → List LogEntry → Type 0
IsFull r count bytes [] = Unit {0}
IsFull r count bytes (e ∷ es) =
    (count ≡ r.max_events) ⊎ ((0 < count) × (r.max_bytes < bytes + e.bytes))

-- A page of `es`, where `count` events of `bytes` bytes are taken before it.
pub record IsPage (r : ReplayRequest) (es : List LogEntry) (count bytes : ℕ) (page : List LogEntry)
    : Type 0 where
  pub rest : List LogEntry
  pub split : after_cursor r.after_sequence es ≡ page ++ rest
  pub few : count + length page ≤ r.max_events
  pub light : bytes + total_bytes page ≤ r.max_bytes
  pub full : IsFull r (count + length page) (bytes + total_bytes page) rest

-- Only the first event behind the cursor can be too large for any page.
pub record IsTooLarge (r : ReplayRequest) (es : List LogEntry) (count bytes size : ℕ) : Type 0 where
  pub first : LogEntry
  pub rest : List LogEntry
  pub split : after_cursor r.after_sequence es ≡ first ∷ rest
  pub none_taken : count ≡ 0
  pub measured : size ≡ first.bytes
  pub heavy : r.max_bytes < bytes + size

abbrev pub PageResult : ReplayRequest → List LogEntry → ℕ → ℕ → Taken → Type 0
PageResult r es count bytes (taken page) = IsPage r es count bytes page
PageResult r es count bytes (too_large size) = IsTooLarge r es count bytes size

abbrev extended : LogEntry → Taken → Taken
extended e (taken page) = taken (e ∷ page)
extended e (too_large size) = too_large size

take_page_step :
    (r : ReplayRequest) (e : LogEntry) (es : List LogEntry) (count bytes : ℕ)
    → leb e.envelope.sequence r.after_sequence ≡ false
    → (count == r.max_events) ≡ false
    → (ltb r.max_bytes e.bytes || ltb (r.max_bytes - e.bytes) bytes) ≡ false
    → take_page r (e ∷ es) count bytes ≡ extended e (take_page r es (count + 1) (bytes + e.bytes))
unfolding take_page
take_page_step r e es count bytes a b c = ground arith

take_page_old :
    (r : ReplayRequest) (e : LogEntry) (es : List LogEntry) (count bytes : ℕ)
    → leb e.envelope.sequence r.after_sequence ≡ true
    → take_page r (e ∷ es) count bytes ≡ take_page r es count bytes
unfolding take_page
take_page_old r e es count bytes a = ground arith

take_page_enough :
    (r : ReplayRequest) (e : LogEntry) (es : List LogEntry) (count bytes : ℕ)
    → leb e.envelope.sequence r.after_sequence ≡ false
    → (count == r.max_events) ≡ true
    → take_page r (e ∷ es) count bytes ≡ taken []
unfolding take_page
take_page_enough r e es count bytes a b = ground arith

take_page_heavy :
    (r : ReplayRequest) (e : LogEntry) (es : List LogEntry) (count bytes : ℕ)
    → leb e.envelope.sequence r.after_sequence ≡ false
    → (count == r.max_events) ≡ false
    → (ltb r.max_bytes e.bytes || ltb (r.max_bytes - e.bytes) bytes) ≡ true
    → take_page r (e ∷ es) count bytes ≡ (if count == 0 then too_large e.bytes else taken [])
unfolding take_page
take_page_heavy r e es count bytes a b c = ground arith

IsFull-cast :
    (r : ReplayRequest) (rest : List LogEntry) (c d b a : ℕ)
    → c ≡ d
    → b ≡ a
    → IsFull r c b rest
    → IsFull r d a rest
IsFull-cast r rest c d b a e f h = rw (← e, ← f) h

-- The empty page, before an entry that ends it.
empty-IsPage :
    (r : ReplayRequest) (e : LogEntry) (es : List LogEntry) (count bytes : ℕ)
    → leb e.envelope.sequence r.after_sequence ≡ false
    → count ≤ r.max_events
    → bytes ≤ r.max_bytes
    → (count ≡ r.max_events) ⊎ ((0 < count) × (r.max_bytes < bytes + e.bytes))
    → IsPage r (e ∷ es) count bytes []
unfolding total_bytes
empty-IsPage r e es count bytes new c b full = record {
  rest = e ∷ after_cursor r.after_sequence es;
  split = rw new;
  few = omega arith;
  light = omega arith;
  full = ground arith;
}

extend_page :
    (r : ReplayRequest) (e : LogEntry) (es : List LogEntry) (count bytes : ℕ) (t : Taken)
    → leb e.envelope.sequence r.after_sequence ≡ false
    → PageResult r es (count + 1) (bytes + e.bytes) t
    → PageResult r (e ∷ es) count bytes (extended e t)
unfolding total_bytes
extend_page r e es count bytes (taken page) a p = record {
  rest = p.rest;
  split = rw a (ap (λ l. e ∷ l) p.split);
  few = omega (arith, p.few);
  light = omega (arith, p.light);
  full =
      IsFull-cast r p.rest (count + 1 + length page) _ (bytes + e.bytes + total_bytes page) _
        (omega arith) (omega arith) p.full;
}
extend_page r e es count bytes (too_large size) a p = absurd (omega (arith, p.none_taken))

skip_old :
    (r : ReplayRequest) (e : LogEntry) (es : List LogEntry) (count bytes : ℕ) (t : Taken)
    → leb e.envelope.sequence r.after_sequence ≡ true
    → PageResult r es count bytes t
    → PageResult r (e ∷ es) count bytes t
skip_old r e es count bytes (taken page) a p = record {
  rest = p.rest;
  split = rw a p.split;
  few = p.few;
  light = p.light;
  full = p.full;
}
skip_old r e es count bytes (too_large size) a p = record {
  first = p.first;
  rest = p.rest;
  split = rw a p.split;
  none_taken = p.none_taken;
  measured = p.measured;
  heavy = p.heavy;
}

stop_heavy :
    (r : ReplayRequest) (e : LogEntry) (es : List LogEntry) (count bytes : ℕ)
    → leb e.envelope.sequence r.after_sequence ≡ false
    → count ≤ r.max_events
    → bytes ≤ r.max_bytes
    → r.max_bytes < bytes + e.bytes
    → PageResult r (e ∷ es) count bytes (if count == 0 then too_large e.bytes else taken [])
stop_heavy r e es count bytes new c b heavy = elim (Bool-cases (count == 0)) [
  | inl first ↦ rw first (record {
    first = e;
    rest = after_cursor r.after_sequence es;
    split = rw new;
    none_taken = ground arith;
    measured = refl;
    heavy = heavy;
  })
  | inr later ↦ rw later (empty-IsPage r e es count bytes new c b (inr (ground arith, heavy)))
]

-- The loop answers with the longest page that both bounds allow, and with an oversized event only
-- when it is the first one behind the cursor.
pub take_page_lem :
    (r : ReplayRequest) (es : List LogEntry) (count bytes : ℕ)
    → count ≤ r.max_events
    → bytes ≤ r.max_bytes
    → PageResult r es count bytes (take_page r es count bytes)
unfolding total_bytes
take_page_lem r [] count bytes c b =
    unfold take_page in
    record { rest = []; split = refl; few = omega arith; light = omega arith; full = tt }
take_page_lem r (e ∷ es) count bytes c b =
    elim (Bool-cases (leb e.envelope.sequence r.after_sequence)) [
      | inl old ↦
          rw (take_page_old r e es count bytes old)
            (skip_old r e es count bytes _ old (take_page_lem r es count bytes c b))
      | inr new ↦ elim (Bool-cases (count == r.max_events)) [
        | inl enough ↦
            rw (take_page_enough r e es count bytes new enough)
              (empty-IsPage r e es count bytes new c b (inl (ground arith)))
        | inr less ↦
            elim (Bool-cases (ltb r.max_bytes e.bytes || ltb (r.max_bytes - e.bytes) bytes)) [
              | inl heavy ↦
                  rw (take_page_heavy r e es count bytes new less heavy)
                    (stop_heavy r e es count bytes new c b (ground arith))
              | inr fits ↦ rw (take_page_step r e es count bytes new less fits) (
                  extend_page r e es count bytes _ new (
                    take_page_lem r es (count + 1) (bytes + e.bytes) (ground arith) (ground arith)))
            ]
      ]
    ]
