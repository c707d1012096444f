-- ===== src/Session/Soundness.antt =====
-- daemon/session_gate.go: what holds of one client's state between two calls, and that the calls of the
-- gates keep it.
use spice_agent.Base.{
  if_intro, ℕ, suc, ◌+◌, ◌≤◌, ◌<◌, ◌≡◌, refl, false, ◌&&◌, ◌||◌, not, leb, ◌==◌, length,
  length-append, List, [], ◌∷◌, ◌++◌, Option, none, some, arith, All, max_u64,
}
use spice_agent.Session.Types.{Lease, SessionState, maximum_gate_waiters, maximum_streams}
use spice_agent.Session.Gate.{
  signal, gate_waiters, is_some, is_empty, Attempt, grant_mutation, try_head, try_acquire_mutation,
  try_acquire_stream, remove_token, remove_mutation_waiter, remove_stream_waiter,
  remove_stream_waiter_opt,
}

-- A commit lease belongs to the epoch.
unfoldable pub ActiveIn : ℕ → Option Lease → Type 0
ActiveIn epoch none = Unit {0}
ActiveIn epoch (some lease) = lease.epoch ≡ epoch

pub record IsSound (s : SessionState) : Type 0 where
  pub epoch_positive : 0 < s.epoch
  pub epoch_fits : s.epoch ≤ max_u64
  pub streams_current : All (λ l. l.epoch ≡ s.epoch) s.streams
  pub active_current : ActiveIn s.epoch s.active_mutation
  pub few_waiters : gate_waiters s ≤ maximum_gate_waiters
  pub few_streams : length s.streams ≤ maximum_streams

abbrev SoundAfter : SessionState × Attempt → Type 0
SoundAfter p = IsSound p.0

pub remove_token-length : (w : ℕ) (xs : List ℕ) → length (remove_token w xs).0 ≤ length xs
unfolding remove_token
remove_token-length w [] = omega arith
remove_token-length w (x ∷ xs) = ground (arith, remove_token-length w xs)

pub remove_mutation_waiter-IsSound :
    (w : ℕ) (s : SessionState) → IsSound s → IsSound (remove_mutation_waiter w s)
unfolding remove_mutation_waiter gate_waiters signal
remove_mutation_waiter-IsSound w s v =
    if_intro IsSound (remove_token w s.mutation_waiters).1
      (λ _. record {
        epoch_positive = v.epoch_positive;
        epoch_fits = v.epoch_fits;
        streams_current = v.streams_current;
        active_current = v.active_current;
        few_waiters =
            let fewer = remove_token-length w s.mutation_waiters in
            let few = v.few_waiters in omega arith;
        few_streams = v.few_streams;
      })
      (λ _. v)

pub remove_stream_waiter-IsSound :
    (w : ℕ) (s : SessionState) → IsSound s → IsSound (remove_stream_waiter w s)
unfolding remove_stream_waiter gate_waiters signal
remove_stream_waiter-IsSound w s v =
    if_intro IsSound (remove_token w s.stream_waiters).1
      (λ _. record {
        epoch_positive = v.epoch_positive;
        epoch_fits = v.epoch_fits;
        streams_current = v.streams_current;
        active_current = v.active_current;
        few_waiters =
            let fewer = remove_token-length w s.stream_waiters in
            let few = v.few_waiters in omega arith;
        few_streams = v.few_streams;
      })
      (λ _. v)

-- A grant keeps what holds: the lease is of the epoch.
grant-IsSound : (s : SessionState) (token : ℕ) → IsSound s → IsSound (grant_mutation s token).0
unfolding grant_mutation gate_waiters ActiveIn
grant-IsSound s token v = record {
  epoch_positive = v.epoch_positive;
  epoch_fits = v.epoch_fits;
  streams_current = v.streams_current;
  active_current = refl;
  few_waiters = v.few_waiters;
  few_streams = v.few_streams;
}

-- The queue of commits may be replaced by one that is no longer, or that the bound allows.
with_waiters :
    (s : SessionState) (queue : List ℕ) (changed : ℕ)
    → length queue + length s.reconnect_waiters + length s.stream_waiters ≤ maximum_gate_waiters
    → IsSound s
    → IsSound (record s { mutation_waiters = queue; changed = changed })
unfolding gate_waiters
with_waiters s queue changed few v = record {
  epoch_positive = v.epoch_positive;
  epoch_fits = v.epoch_fits;
  streams_current = v.streams_current;
  active_current = v.active_current;
  few_waiters = few;
  few_streams = v.few_streams;
}

try_head-IsSound :
    (s : SessionState) (queue : List ℕ) (waiter token : ℕ)
    → length queue ≤ length s.mutation_waiters
    → IsSound s
    → IsSound (try_head s queue waiter token).0
unfolding try_head gate_waiters signal
try_head-IsSound s [] waiter token e v =
    if_intro SoundAfter (not (is_empty s.reconnect_waiters) || is_some s.active_mutation) (λ _. v)
      (λ _. v)
try_head-IsSound s (x ∷ xs) waiter token e v =
    if_intro SoundAfter
      (not (is_empty s.reconnect_waiters) || is_some s.active_mutation || not (x == waiter))
      (λ _. v)
      (λ _.
        grant-IsSound _ token
          (let few = v.few_waiters in with_waiters s xs (suc s.changed) (omega arith) v))

pub try_acquire_mutation-IsSound :
    (s : SessionState) (waiter : Option ℕ) (fresh : ℕ)
    → IsSound s
    → IsSound (try_acquire_mutation s waiter fresh).0
unfolding try_acquire_mutation gate_waiters
try_acquire_mutation-IsSound s (some w) fresh v =
    try_head-IsSound s s.mutation_waiters w (suc fresh) (omega arith) v
try_acquire_mutation-IsSound s none fresh v =
    if_intro SoundAfter
      (not (is_some s.active_mutation)
        && is_empty s.mutation_waiters
        && is_empty s.reconnect_waiters)
      (λ _. grant-IsSound s (suc fresh) v)
      (λ _.
        if_intro SoundAfter (leb maximum_gate_waiters (gate_waiters s)) (λ _. v)
          (λ room.
            let longer = length-append s.mutation_waiters (fresh ∷ []) in
            let few : length (s.mutation_waiters ++ fresh ∷ [])
                  + length s.reconnect_waiters
                  + length s.stream_waiters
                ≤ maximum_gate_waiters =
              ground arith in
            try_head-IsSound _ (s.mutation_waiters ++ fresh ∷ []) fresh (suc fresh) (omega arith)
              (with_waiters s _ s.changed few v)))

with_stream :
    (t : SessionState) (token : ℕ)
    → length t.streams < maximum_streams
    → IsSound t
    → IsSound (record t { streams = record { token = token; epoch = t.epoch } ∷ t.streams })
unfolding gate_waiters
with_stream t token room v = record {
  epoch_positive = v.epoch_positive;
  epoch_fits = v.epoch_fits;
  streams_current = (refl, v.streams_current);
  active_current = v.active_current;
  few_waiters = v.few_waiters;
  few_streams = omega arith;
}

with_stream_waiter :
    (s : SessionState) (fresh : ℕ)
    → leb maximum_gate_waiters (gate_waiters s) ≡ false
    → IsSound s
    → IsSound (record s { stream_waiters = s.stream_waiters ++ fresh ∷ [] })
unfolding gate_waiters
with_stream_waiter s fresh room v = record {
  epoch_positive = v.epoch_positive;
  epoch_fits = v.epoch_fits;
  streams_current = v.streams_current;
  active_current = v.active_current;
  few_waiters = let longer = length-append s.stream_waiters (fresh ∷ []) in ground arith;
  few_streams = v.few_streams;
}

pub try_acquire_stream-IsSound :
    (maximum : ℕ) (s : SessionState) (waiter : Option ℕ) (fresh : ℕ)
    → maximum ≤ maximum_streams
    → IsSound s
    → IsSound (try_acquire_stream maximum s waiter fresh).0
unfolding try_acquire_stream remove_stream_waiter_opt
try_acquire_stream-IsSound maximum s none fresh bound v =
    if_intro SoundAfter (is_empty s.reconnect_waiters)
      (λ _.
        if_intro SoundAfter (leb maximum (length s.streams)) (λ _. v)
          (λ room. with_stream s (suc fresh) (ground arith) v))
      (λ _.
        if_intro SoundAfter (leb maximum_gate_waiters (gate_waiters s)) (λ _. v)
          (λ room. with_stream_waiter s fresh room v))
try_acquire_stream-IsSound maximum s (some w) fresh bound v =
    if_intro SoundAfter (is_empty s.reconnect_waiters)
      (λ _.
        let kept = remove_stream_waiter-IsSound w s v in
        if_intro SoundAfter (leb maximum (length (remove_stream_waiter w s).streams)) (λ _. kept)
          (λ room. with_stream (remove_stream_waiter w s) (suc fresh) (ground arith) kept))
      (λ _. v)
