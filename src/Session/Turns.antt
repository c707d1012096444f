-- ===== src/Session/Turns.antt =====
-- daemon/session_gate.go, daemon/session_reconnect.go, daemon/session.go: the calls as they run under the
-- lock of the store. A waiting call is repeated by its loop: each turn of the loop is one function here,
-- and the token of its waiter is what the loop keeps.
use spice_agent.Base.{
  ℕ, suc, true, not, ◌||◌, ◌==◌, ltb, if◌then◌else◌, List, [], ◌∷◌, Option, none, some, Bytes,
  Result, err, ContextError,
}
use spice_agent.Session.Types.{
  SessionState, SessionError, unknown_session, context_failed, invalid_token, invalid_limit,
  bounded_token, maximum_streams,
}
use spice_agent.Session.Gate.{
  signal, Attempt, refused, try_acquire_mutation, try_acquire_stream, remove_mutation_waiter,
  remove_stream_waiter, release_mutation, release_stream,
}
use spice_agent.Session.Reconnect.{
  ReconnectStep, fails, register_reconnect, reconnect_step, remove_reconnect_waiter,
}
use spice_agent.Session.Store.{
  SessionStore, find_session, at_session, change_session, closed_locked, maybe_drained,
  session_locked,
}

-- The removal of a waiter that gives up, and the check for a drain behind it.
unfoldable pub drop_waiter :
    (ℕ → SessionState → SessionState) → Bytes → Option ℕ → SessionStore → SessionStore
unfolding find_session at_session
drop_waiter remove client none store = store
drop_waiter remove client (some w) store = elim (find_session client store.sessions) [
  | none ↦ store
  | some s ↦ maybe_drained (change_session client (remove w) store)
]

-- An attempt on the state of a client, for a waiter and with fresh tokens.
abbrev pub Try : Type 0
Try = SessionState → Option ℕ → ℕ → SessionState × Attempt

try_state : Try → Bytes → Option ℕ → SessionStore → Option SessionState → SessionStore × Attempt
unfolding at_session
try_state try client waiter store none = (store, refused unknown_session)
try_state try client waiter store (some s) =
    let attempt = try s waiter store.next_token in
    (
      record store {
        sessions = at_session client (λ _. attempt.0) store.sessions;
        next_token = suc (suc store.next_token);
      },
      attempt.1,
    )

-- One turn of the loop of AcquireMutationCommit and of acquireStream, which differ in the attempt and
-- in the removal. `before` and `inside` are the two readings of the caller's context in a turn.
unfoldable pub gate_turn :
    Try
    → (ℕ → SessionState → SessionState)
    → Option ContextError
    → Option ContextError
    → Bytes
    → ℕ
    → Option ℕ
    → SessionStore
    → SessionStore × Attempt
unfolding drop_waiter session_locked try_state
gate_turn try remove (some c) inside client epoch waiter store =
    (drop_waiter remove client waiter store, refused (context_failed c))
gate_turn try remove none inside client epoch waiter store =
    elim (session_locked store client epoch) [
      | some e ↦ (drop_waiter remove client waiter store, refused e)
      | none ↦ elim inside [
        | some c ↦ (drop_waiter remove client waiter store, refused (context_failed c))
        | none ↦ try_state try client waiter store (find_session client store.sessions)
      ]
    ]

-- AcquireMutationCommit, a turn of its loop.
unfoldable pub mutation_turn :
    Option ContextError
    → Option ContextError
    → Bytes
    → ℕ
    → Option ℕ
    → SessionStore
    → SessionStore × Attempt
unfolding gate_turn
mutation_turn = gate_turn try_acquire_mutation remove_mutation_waiter

-- acquireStream, a turn of its loop.
unfoldable pub stream_turn :
    ℕ
    → Option ContextError
    → Option ContextError
    → Bytes
    → ℕ
    → Option ℕ
    → SessionStore
    → SessionStore × Attempt
unfolding gate_turn
stream_turn maximum = gate_turn (try_acquire_stream maximum) remove_stream_waiter

-- AcquireMutationCommit up to its first turn: the checks before the loop. `early` is the reading of the
-- context there.
unfoldable pub begin_mutation :
    Option ContextError
    → Option ContextError
    → Option ContextError
    → Bytes
    → ℕ
    → SessionStore
    → SessionStore × Attempt
unfolding mutation_turn bounded_token
begin_mutation (some c) before inside client epoch store = (store, refused (context_failed c))
begin_mutation none before inside client epoch store =
    if not (bounded_token client)
    then (store, refused invalid_token)
    else mutation_turn before inside client epoch none store

-- acquireStream up to its first turn.
unfoldable pub begin_stream :
    ℕ
    → Option ContextError
    → Option ContextError
    → Option ContextError
    → Bytes
    → ℕ
    → SessionStore
    → SessionStore × Attempt
unfolding stream_turn bounded_token
begin_stream maximum early before inside client epoch store =
    if maximum == 0 || ltb maximum_streams maximum
    then (store, refused invalid_limit)
    else elim early [
      | some c ↦ (store, refused (context_failed c))
      | none ↦
          if not (bounded_token client)
          then (store, refused invalid_token)
          else stream_turn maximum before inside client epoch none store
    ]

-- MutationCommitLease.Close
unfoldable pub close_mutation : Bytes → ℕ → SessionStore → SessionStore
close_mutation client token store =
    maybe_drained (change_session client (release_mutation token) store)

-- StreamLease.Close, under the lock of the store, for a lease that is not closed yet.
unfoldable pub close_stream : Bytes → ℕ → SessionStore → SessionStore
close_stream client token store = maybe_drained (change_session client (release_stream token) store)

unfoldable pub signal_all : List (Bytes × SessionState) → List (Bytes × SessionState)
signal_all [] = []
signal_all ((k, s) ∷ ss) = (k, signal s) ∷ signal_all ss

-- Close. Its stop of the root context, after the lock, is part of the step: the store is closed by then.
unfoldable pub close_store : SessionStore → SessionStore
unfolding signal_all
close_store store =
    if store.closed
    then store
    else record (maybe_drained
        (record store { closed = true; sessions = signal_all store.sessions })) { root_done = true }

-- What a step of a reconnect leaves in the store: the state, and the check for a drain where the
-- waiter was removed.
unfoldable pub after_step :
    Bytes → SessionStore → SessionState × ReconnectStep → SessionStore × ReconnectStep
after_step client store (s, fails e) =
    (maybe_drained (change_session client (λ _. s) store), fails e)
after_step client store (s, step) = (change_session client (λ _. s) store, step)

-- registerReconnect
unfoldable pub register_turn : Bytes → ℕ → SessionStore → SessionStore × Result SessionError ℕ
unfolding session_locked find_session at_session
register_turn client expected store = elim (session_locked store client expected) [
  | some e ↦ (store, err e)
  | none ↦ elim (find_session client store.sessions) [
    | none ↦ (store, err unknown_session)
    | some s ↦
        let result = register_reconnect expected s store.next_token in
        (
          record store {
            sessions = at_session client (λ _. result.0) store.sessions;
            next_token = suc store.next_token;
          },
          result.1,
        )
  ]
]

-- One turn of the loop of ReconnectContext, for a registered waiter.
unfoldable pub reconnect_turn :
    Option ContextError → Bytes → ℕ → ℕ → SessionStore → SessionStore × ReconnectStep
unfolding drop_waiter find_session after_step
reconnect_turn (some c) client expected w store =
    (drop_waiter remove_reconnect_waiter client (some w) store, fails (context_failed c))
reconnect_turn none client expected w store = elim (find_session client store.sessions) [
  | none ↦ (store, fails unknown_session)
  | some s ↦
      after_step client store
        (reconnect_step (closed_locked store) store.root_done client expected w s)
]
