-- ===== src/Session/Store.antt =====
-- daemon/session.go: the store of the clients' sessions, its checks, and the creation of a session.
use spice_agent.Base.{
  ℕ, zero, suc, ◌+◌, Bool, true, false, ◌||◌, not, if◌then◌else◌, ltb, leb, ◌==◌, length, List, [],
  ◌∷◌, Option, none, some, Bytes, bytes_eq, Result, ok, err, ◌/◌, ◌%◌,
}
use spice_agent.Session.Types.{
  SessionState, SessionError, store_closed, unknown_session, stale_session, invalid_token,
  capacity_exhausted, unique_id_exhausted, random_failed, bounded_token, maximum_sessions,
}
use spice_agent.Session.Gate.{busy}

-- SessionStore. `root_done` says that the root context has ended; `next_token` is above every pointer
-- identity that is in use.
pub record SessionStore : Type 0 where
  pub root_done : Bool
  pub maximum : ℕ
  pub sessions : List (Bytes × SessionState)
  pub closed : Bool
  pub drained : Bool
  pub next_token : ℕ

-- newSessionStore, for a root and a source of randomness that are not nil.
unfoldable pub new_session_store : ℕ → Bool → Option SessionStore
new_session_store maximum root_done =
    if ltb maximum 1 || ltb maximum_sessions maximum
    then none
    else some (record {
      root_done = root_done;
      maximum = maximum;
      sessions = [];
      closed = false;
      drained = false;
      next_token = 0;
    })

unfoldable pub find_session : Bytes → List (Bytes × SessionState) → Option SessionState
find_session k [] = none
find_session k ((j, s) ∷ ss) = let rest = find_session k ss in if bytes_eq j k then some s else rest

-- A change of the state of one client; the state is shared by pointer.
unfoldable pub at_session :
    Bytes
    → (SessionState → SessionState)
    → List (Bytes × SessionState)
    → List (Bytes × SessionState)
at_session k f [] = []
at_session k f ((j, s) ∷ ss) =
    let rest = at_session k f ss in if bytes_eq j k then (j, f s) ∷ ss else (j, s) ∷ rest

abbrev pub change_session : Bytes → (SessionState → SessionState) → SessionStore → SessionStore
change_session k f store = record store { sessions = at_session k f store.sessions }

-- closedLocked
unfoldable pub closed_locked : SessionStore → Bool
closed_locked store = store.closed || store.root_done

unfoldable pub any_busy : List (Bytes × SessionState) → Bool
any_busy [] = false
any_busy ((k, s) ∷ ss) = busy s || any_busy ss

-- maybeDrainedLocked
unfoldable pub maybe_drained : SessionStore → SessionStore
unfolding any_busy
maybe_drained store =
    if not store.closed
    then store
    else if any_busy store.sessions
    then store
    else record store { drained = true }

-- sessionLocked, as the error that it gives.
check_state : Bytes → ℕ → Option SessionState → Option SessionError
check_state client observed none = some unknown_session
check_state client observed (some s) =
    if observed == 0 || not (s.epoch == observed)
    then some (stale_session client s.epoch observed)
    else none

unfoldable pub session_locked : SessionStore → Bytes → ℕ → Option SessionError
unfolding closed_locked check_state find_session
session_locked store client observed =
    if closed_locked store
    then some store_closed
    else check_state client observed (find_session client store.sessions)

-- Check; Fence makes the same test.
unfoldable pub check_session : SessionStore → Bytes → ℕ → Option SessionError
unfolding session_locked bounded_token
check_session store client epoch =
    if not (bounded_token client) then some invalid_token else session_locked store client epoch

-- encoding/hex.EncodeToString
hex_digit : ℕ → ℕ
hex_digit n = if ltb n 10 then 48 + n else 87 + n

unfoldable pub hex_encode : Bytes → Bytes
unfolding hex_digit
hex_encode [] = []
hex_encode (b ∷ bs) = hex_digit (b / 16) ∷ hex_digit (b % 16) ∷ hex_encode bs

-- What one attempt of Fresh does under the lock, after its random bytes are read.
pub data FreshAttempt : Type 0 where
  created : Bytes → FreshAttempt
  collided : FreshAttempt
  fresh_failed : SessionError → FreshAttempt

abbrev pub first_epoch : SessionState
first_epoch = record {
  epoch = 1;
  changed = 0;
  active_mutation = none;
  mutation_waiters = [];
  reconnect_waiters = [];
  stream_waiters = [];
  streams = [];
}

unfoldable pub fresh_attempt : SessionStore → Bytes → SessionStore × FreshAttempt
unfolding closed_locked hex_encode find_session
fresh_attempt store raw =
    let client = hex_encode raw in
    if closed_locked store
    then (store, fresh_failed store_closed)
    else if leb store.maximum (length store.sessions)
    then (store, fresh_failed capacity_exhausted)
    else elim (find_session client store.sessions) [
      | some s ↦ (store, collided)
      | none ↦ (record store { sessions = (client, first_epoch) ∷ store.sessions }, created client)
    ]

-- The loop of Fresh, with no other call between its attempts. `rounds` is 4; a reading of the random
-- source is `none` where it fails.
unfoldable pub fresh_loop :
    ℕ → SessionStore → (ℕ → Option Bytes) → SessionStore × Result SessionError Bytes
unfolding fresh_attempt
fresh_loop zero store random = (store, err unique_id_exhausted)
fresh_loop (suc rounds) store random = elim (random rounds) [
  | none ↦ (store, err random_failed)
  | some raw ↦
      let attempt = fresh_attempt store raw in
      elim (attempt.1) [
        | created client ↦ (attempt.0, ok client)
        | fresh_failed e ↦ (attempt.0, err e)
        | collided ↦ fresh_loop rounds attempt.0 random
      ]
]

-- Fresh
unfoldable pub fresh : SessionStore → (ℕ → Option Bytes) → SessionStore × Result SessionError Bytes
unfolding fresh_loop
fresh store random =
    if closed_locked store
    then (store, err store_closed)
    else if leb store.maximum (length store.sessions)
    then (store, err capacity_exhausted)
    else fresh_loop 4 store random
