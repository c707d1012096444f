-- ===== src/Session/Epochs.antt =====
-- daemon/session_gate.go, daemon/session_reconnect.go: the calls that release a lease and the steps of
-- a reconnect, and the epoch they leave.
use spice_agent.Base.{
  if_intro, ℕ, suc, ◌+◌, ◌≤◌, ◌<◌, ◌≡◌, refl, ap, sym, subst, Bool, true, false, ◌&&◌, ◌||◌, not,
  leb, ◌==◌, length, length-append, List, [], ◌∷◌, ◌++◌, Option, none, some, arith, All, Result,
  max_u64, add64, add64_exact, Bytes,
}
use spice_agent.Session.Types.{
  Lease, ReconnectWaiter, SessionState, maximum_gate_waiters, SessionError,
}
use spice_agent.Session.Gate.{
  signal, gate_waiters, is_some, is_empty, release_mutation, release_stream, delete_lease,
}
use spice_agent.Session.Reconnect.{
  register_reconnect, remove_reconnect, remove_reconnect_waiter, ReconnectStep, advance_reconnect,
  fence_streams, step_head, reconnect_step,
}
use spice_agent.Session.Soundness.{ActiveIn, IsSound}

pub release_mutation-IsSound :
    (token : ℕ) (s : SessionState) → IsSound s → IsSound (release_mutation token s)
unfolding release_mutation gate_waiters signal ActiveIn
release_mutation-IsSound token s v =
    if_intro IsSound _
      (λ _. record {
        epoch_positive = v.epoch_positive;
        epoch_fits = v.epoch_fits;
        streams_current = v.streams_current;
        active_current = tt;
        few_waiters = v.few_waiters;
        few_streams = v.few_streams;
      })
      (λ _. v)

delete_lease-length : (w : ℕ) (xs : List Lease) → length (delete_lease w xs) ≤ length xs
unfolding delete_lease
delete_lease-length w [] = omega arith
delete_lease-length w (x ∷ xs) = ground (arith, delete_lease-length w xs)

delete_lease-All :
    (P : Lease → Type 0) (w : ℕ) (xs : List Lease) → All P xs → All P (delete_lease w xs)
unfolding delete_lease
delete_lease-All P w [] all = all
delete_lease-All P w (x ∷ xs) (p, ps) =
    if_intro (All P) (x.token == w) (λ _. delete_lease-All P w xs ps)
      (λ _. (p, delete_lease-All P w xs ps))

pub release_stream-IsSound :
    (token : ℕ) (s : SessionState) → IsSound s → IsSound (release_stream token s)
unfolding release_stream gate_waiters signal
release_stream-IsSound token s v = record {
  epoch_positive = v.epoch_positive;
  epoch_fits = v.epoch_fits;
  streams_current = delete_lease-All (λ l. l.epoch ≡ s.epoch) token s.streams v.streams_current;
  active_current = v.active_current;
  few_waiters = v.few_waiters;
  few_streams =
      let fewer = delete_lease-length token s.streams in let few = v.few_streams in omega arith;
}

-- The queue of reconnects may be replaced by any that the bound allows.
with_reconnects :
    (s : SessionState) (queue : List ReconnectWaiter) (changed : ℕ)
    → length s.mutation_waiters + length queue + length s.stream_waiters ≤ maximum_gate_waiters
    → IsSound s
    → IsSound (record s { reconnect_waiters = queue; changed = changed })
unfolding gate_waiters
with_reconnects s queue changed few v = record {
  epoch_positive = v.epoch_positive;
  epoch_fits = v.epoch_fits;
  streams_current = v.streams_current;
  active_current = v.active_current;
  few_waiters = few;
  few_streams = v.few_streams;
}

pub register_reconnect-IsSound :
    (expected : ℕ) (s : SessionState) (fresh : ℕ)
    → IsSound s
    → IsSound (register_reconnect expected s fresh).0
unfolding register_reconnect gate_waiters signal
register_reconnect-IsSound expected s fresh v =
    let After : SessionState × Result SessionError ℕ → Type 0 = λ p. IsSound p.0 in
    let waiter : ReconnectWaiter = record { token = fresh; fencing = false } in
    if_intro After (expected == max_u64) (λ _. v)
      (λ _.
        if_intro After (leb maximum_gate_waiters (gate_waiters s)) (λ _. v)
          (λ room.
            let longer = length-append s.reconnect_waiters (waiter ∷ []) in
            with_reconnects s (s.reconnect_waiters ++ waiter ∷ []) (suc s.changed) (ground arith)
              v))

remove_reconnect-length :
    (w : ℕ) (xs : List ReconnectWaiter) → length (remove_reconnect w xs).0 ≤ length xs
unfolding remove_reconnect
remove_reconnect-length w [] = omega arith
remove_reconnect-length w (x ∷ xs) = ground (arith, remove_reconnect-length w xs)

pub remove_reconnect_waiter-IsSound :
    (w : ℕ) (s : SessionState) → IsSound s → IsSound (remove_reconnect_waiter w s)
unfolding remove_reconnect_waiter gate_waiters signal
remove_reconnect_waiter-IsSound w s v =
    if_intro IsSound (remove_reconnect w s.reconnect_waiters).1
      (λ _.
        let fewer = remove_reconnect-length w s.reconnect_waiters in
        let few = v.few_waiters in
        with_reconnects s (remove_reconnect w s.reconnect_waiters).0 (suc s.changed) (omega arith)
          v)
      (λ _. v)

abbrev SoundAfter : SessionState × ReconnectStep → Type 0
SoundAfter p = IsSound p.0

-- With no commit and no stream, the epoch may be any that fits.
with_epoch :
    (s : SessionState) (queue : List ReconnectWaiter) (epoch changed : ℕ)
    → s.active_mutation ≡ none
    → s.streams ≡ []
    → length queue ≤ length s.reconnect_waiters
    → 0 < epoch
    → epoch ≤ max_u64
    → IsSound s
    → IsSound (record s { epoch = epoch; reconnect_waiters = queue; changed = changed })
unfolding gate_waiters ActiveIn
with_epoch s queue epoch changed idle ended fewer positive fits v = record {
  epoch_positive = positive;
  epoch_fits = fits;
  streams_current = subst (λ ls. All (λ l. l.epoch ≡ epoch) ls) (sym ended) tt;
  active_current = subst (λ a. ActiveIn epoch a) (sym idle) tt;
  few_waiters = let few = v.few_waiters in omega arith;
  few_streams = v.few_streams;
}

pub none_of : {A : Type 0} (o : Option A) → is_some o ≡ false → o ≡ none
none_of none e = refl
none_of (some a) e = absurd (grind arith)

pub empty_of : {A : Type 0} (xs : List A) → not (is_empty xs) ≡ false → xs ≡ []
empty_of [] e = refl
empty_of (x ∷ xs) e = absurd (grind arith)

-- What an advance leaves.
advance-IsSound :
    (root_done : Bool) (waiter : ReconnectWaiter) (rest : List ReconnectWaiter) (s : SessionState)
    → s.active_mutation ≡ none
    → s.streams ≡ []
    → length rest ≤ length s.reconnect_waiters
    → s.epoch < max_u64
    → IsSound s
    → IsSound (advance_reconnect root_done waiter rest s).0
unfolding advance_reconnect signal
advance-IsSound root_done waiter rest s idle ended fewer fits v =
    if_intro SoundAfter root_done (λ _. remove_reconnect_waiter-IsSound waiter.token s v)
      (λ _.
        let exact = add64_exact s.epoch 1 (omega arith) in
        with_epoch s rest (add64 s.epoch 1) (suc s.changed) idle ended fewer (omega arith)
          (omega arith) v)

fence-IsSound :
    (root_done : Bool) (waiter : ReconnectWaiter) (rest : List ReconnectWaiter) (s : SessionState)
    → s.active_mutation ≡ none
    → length rest < length s.reconnect_waiters
    → s.epoch < max_u64
    → IsSound s
    → IsSound (fence_streams root_done waiter rest s).0
unfolding fence_streams gate_waiters
fence-IsSound root_done waiter rest s idle fewer fits v =
    let few = v.few_waiters in
    let fenced =
      with_reconnects s (record waiter { fencing = true } ∷ rest) s.changed (omega arith) v in
    if_intro SoundAfter (not waiter.fencing && not (is_empty s.streams)) (λ _. fenced)
      (λ _.
        if_intro SoundAfter (not (is_empty s.streams)) (λ _. fenced)
          (λ ended.
            advance-IsSound root_done (record waiter { fencing = true }) rest _ idle
              (empty_of s.streams ended) (omega arith) fits fenced))

head-IsSound :
    (root_done : Bool) (w : ℕ) (queue : List ReconnectWaiter) (s : SessionState)
    → s.reconnect_waiters ≡ queue
    → s.epoch < max_u64
    → IsSound s
    → IsSound (step_head root_done w queue s).0
unfolding step_head
head-IsSound root_done w [] s e fits v = v
head-IsSound root_done w (x ∷ xs) s e fits v =
    if_intro SoundAfter (not (x.token == w) || is_some s.active_mutation) (λ _. v)
      (λ go.
        let fewer = ap length e in
        fence-IsSound root_done x xs s (none_of s.active_mutation (ground arith)) (omega arith) fits
          v)

pub reconnect_step-IsSound :
    (closed root_done : Bool) (client : Bytes) (expected w : ℕ) (s : SessionState)
    → expected < max_u64
    → IsSound s
    → IsSound (reconnect_step closed root_done client expected w s).0
unfolding reconnect_step
reconnect_step-IsSound closed root_done client expected w s fits v =
    if_intro SoundAfter closed (λ _. remove_reconnect_waiter-IsSound w s v)
      (λ _.
        if_intro SoundAfter (not (s.epoch == expected)) (λ _. remove_reconnect_waiter-IsSound w s v)
          (λ same. head-IsSound root_done w s.reconnect_waiters s refl (ground arith) v))
