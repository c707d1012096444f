-- ===== src/Session/Gate.antt =====
-- daemon/session_gate.go: what the gates do to the state of one client, under the lock of the store.
use spice_agent.Base.{
  ℕ, suc, ◌+◌, Bool, true, false, ◌&&◌, ◌||◌, not, if◌then◌else◌, leb, ◌==◌, length, List, [], ◌∷◌,
  ◌++◌, Option, none, some,
}
use spice_agent.Session.Types.{
  Lease, SessionState, SessionError, gate_capacity, session_gate_waiters, stream_leases,
  maximum_gate_waiters,
}

-- signalLocked
unfoldable pub signal : SessionState → SessionState
signal s = record s { changed = suc s.changed }

-- gateWaitersLocked
unfoldable pub gate_waiters : SessionState → ℕ
gate_waiters s = length s.mutation_waiters + length s.reconnect_waiters + length s.stream_waiters

abbrev pub is_some {ℓ} : {A : Type ℓ} → Option A → Bool
is_some none = false
is_some (some a) = true

abbrev pub is_empty {ℓ} : {A : Type ℓ} → List A → Bool
is_empty [] = true
is_empty (x ∷ xs) = false

-- How an attempt to acquire ends. `panics` is an index into an empty slice.
pub data Attempt : Type 0 where
  granted : Lease → Attempt
  queued : ℕ → Attempt
  refused : SessionError → Attempt
  panics : Attempt

-- grantMutationLocked
unfoldable pub grant_mutation : SessionState → ℕ → SessionState × Attempt
grant_mutation s token =
    let lease : Lease = record { token = token; epoch = s.epoch } in
    (record s { active_mutation = some lease }, granted lease)

-- tryAcquireMutationLocked for a waiter in the queue, by the queue.
unfoldable pub try_head : SessionState → List ℕ → ℕ → ℕ → SessionState × Attempt
unfolding grant_mutation signal
try_head s [] waiter token =
    if not (is_empty s.reconnect_waiters) || is_some s.active_mutation
    then (s, queued waiter)
    else (s, panics)
try_head s (head ∷ rest) waiter token =
    if not (is_empty s.reconnect_waiters) || is_some s.active_mutation || not (head == waiter)
    then (s, queued waiter)
    else grant_mutation (signal (record s { mutation_waiters = rest })) token

-- tryAcquireMutationLocked; a new waiter gets the token `fresh` and a lease the one after it.
unfoldable pub try_acquire_mutation : SessionState → Option ℕ → ℕ → SessionState × Attempt
unfolding grant_mutation try_head gate_waiters
try_acquire_mutation s (some waiter) fresh = try_head s s.mutation_waiters waiter (suc fresh)
try_acquire_mutation s none fresh =
    if not (is_some s.active_mutation)
      && is_empty s.mutation_waiters
      && is_empty s.reconnect_waiters
    then grant_mutation s (suc fresh)
    else if leb maximum_gate_waiters (gate_waiters s)
    then (s, refused (gate_capacity session_gate_waiters maximum_gate_waiters))
    else let waiters = s.mutation_waiters ++ fresh ∷ [] in
      try_head (record s { mutation_waiters = waiters }) waiters fresh (suc fresh)

-- The removal of the first occurrence, as the loops over the waiters do it; the flag tells a hit.
unfoldable pub remove_token : ℕ → List ℕ → List ℕ × Bool
remove_token w [] = ([], false)
remove_token w (x ∷ xs) =
    let (rest, hit) = remove_token w xs in if x == w then (xs, true) else (x ∷ rest, hit)

-- removeMutationWaiterLocked on a state and a waiter.
unfoldable pub remove_mutation_waiter : ℕ → SessionState → SessionState
unfolding remove_token signal
remove_mutation_waiter w s =
    let (rest, hit) = remove_token w s.mutation_waiters in
    if hit then signal (record s { mutation_waiters = rest }) else s

-- removeStreamWaiterLocked on a state and a waiter.
unfoldable pub remove_stream_waiter : ℕ → SessionState → SessionState
unfolding remove_token signal
remove_stream_waiter w s =
    let (rest, hit) = remove_token w s.stream_waiters in
    if hit then signal (record s { stream_waiters = rest }) else s

unfoldable pub remove_stream_waiter_opt : Option ℕ → SessionState → SessionState
unfolding remove_stream_waiter
remove_stream_waiter_opt none s = s
remove_stream_waiter_opt (some w) s = remove_stream_waiter w s

-- acquireStream under the lock, with its bound on the streams of the client.
unfoldable pub try_acquire_stream : ℕ → SessionState → Option ℕ → ℕ → SessionState × Attempt
unfolding remove_stream_waiter_opt gate_waiters
try_acquire_stream maximum s waiter fresh =
    if is_empty s.reconnect_waiters
    then (let t = remove_stream_waiter_opt waiter s in
        let lease : Lease = record { token = suc fresh; epoch = t.epoch } in
        if leb maximum (length t.streams)
        then (t, refused (gate_capacity stream_leases maximum))
        else (record t { streams = lease ∷ t.streams }, granted lease))
    else elim waiter [
      | some w ↦ (s, queued w)
      | none ↦
          if leb maximum_gate_waiters (gate_waiters s)
          then (s, refused (gate_capacity session_gate_waiters maximum_gate_waiters))
          else (record s { stream_waiters = s.stream_waiters ++ fresh ∷ [] }, queued fresh)
    ]

holds_token : ℕ → Option Lease → Bool
holds_token w none = false
holds_token w (some lease) = lease.token == w

-- MutationCommitLease.Close on the state of its client.
unfoldable pub release_mutation : ℕ → SessionState → SessionState
unfolding signal holds_token
release_mutation token s =
    if holds_token token s.active_mutation then signal (record s { active_mutation = none }) else s

unfoldable pub delete_lease : ℕ → List Lease → List Lease
delete_lease w [] = []
delete_lease w (x ∷ xs) = let rest = delete_lease w xs in if x.token == w then rest else x ∷ rest

-- StreamLease.Close on the state of its client.
unfoldable pub release_stream : ℕ → SessionState → SessionState
unfolding delete_lease signal
release_stream token s = signal (record s { streams = delete_lease token s.streams })

-- The test of maybeDrainedLocked on one client.
unfoldable pub busy : SessionState → Bool
busy s =
    is_some s.active_mutation
    || not (is_empty s.mutation_waiters)
    || not (is_empty s.reconnect_waiters)
    || not (is_empty s.stream_waiters)
    || not (is_empty s.streams)
