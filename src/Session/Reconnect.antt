-- ===== src/Session/Reconnect.antt =====
-- daemon/session_reconnect.go: the steps of a reconnect on the state of one client, under the lock of
-- the store.
use spice_agent.Base.{
  ℕ, Bool, true, false, ◌||◌, ◌&&◌, not, if◌then◌else◌, leb, ◌==◌, List, [], ◌∷◌, ◌++◌, Bytes,
  Result, ok, err, map, max_u64, add64,
}
use spice_agent.Session.Types.{
  ReconnectWaiter, SessionState, SessionError, gate_capacity, session_gate_waiters, stale_session,
  epoch_overflow, store_closed, maximum_gate_waiters,
}
use spice_agent.Session.Gate.{signal, gate_waiters, is_some, is_empty}

-- registerReconnect, after the ownership check.
unfoldable pub register_reconnect : ℕ → SessionState → ℕ → SessionState × Result SessionError ℕ
unfolding signal gate_waiters
register_reconnect expected s fresh =
    if expected == max_u64
    then (s, err epoch_overflow)
    else if leb maximum_gate_waiters (gate_waiters s)
    then (s, err (gate_capacity session_gate_waiters maximum_gate_waiters))
    else (
      signal (record s {
        reconnect_waiters = s.reconnect_waiters ++ record { token = fresh; fencing = false } ∷ [];
      }),
      ok fresh,
    )

unfoldable pub remove_reconnect : ℕ → List ReconnectWaiter → List ReconnectWaiter × Bool
remove_reconnect w [] = ([], false)
remove_reconnect w (x ∷ xs) =
    let (rest, hit) = remove_reconnect w xs in if x.token == w then (xs, true) else (x ∷ rest, hit)

-- removeReconnectLocked on a state and a waiter.
unfoldable pub remove_reconnect_waiter : ℕ → SessionState → SessionState
unfolding remove_reconnect signal
remove_reconnect_waiter w s =
    let (rest, hit) = remove_reconnect w s.reconnect_waiters in
    if hit then signal (record s { reconnect_waiters = rest }) else s

-- reconnectStep: cancel these streams and come back; wait for the next change; done with an error;
-- done with the next epoch, the context of the old one to be cancelled. `breaks` is a panic.
pub data ReconnectStep : Type 0 where
  cancels_streams : List ℕ → ReconnectStep
  waits : ℕ → ReconnectStep
  fails : SessionError → ReconnectStep
  advances : ℕ → ℕ → ReconnectStep
  breaks : ReconnectStep

-- advanceReconnectLocked; `root_done` says that the root context has ended.
unfoldable pub advance_reconnect :
    Bool → ReconnectWaiter → List ReconnectWaiter → SessionState → SessionState × ReconnectStep
unfolding remove_reconnect_waiter signal
advance_reconnect root_done waiter rest s =
    if root_done
    then (remove_reconnect_waiter waiter.token s, fails store_closed)
    else let next = add64 s.epoch 1 in
      (signal (record s { epoch = next; reconnect_waiters = rest }), advances s.epoch next)

-- The end of reconnectStepLocked, for the waiter at the head with no active commit.
unfoldable pub fence_streams :
    Bool → ReconnectWaiter → List ReconnectWaiter → SessionState → SessionState × ReconnectStep
unfolding advance_reconnect
fence_streams root_done waiter rest s =
    let fenced = record s { reconnect_waiters = record waiter { fencing = true } ∷ rest } in
    if not waiter.fencing && not (is_empty s.streams)
    then (fenced, cancels_streams (map (λ l. l.token) s.streams))
    else if not (is_empty s.streams)
    then (fenced, waits s.changed)
    else advance_reconnect root_done (record waiter { fencing = true }) rest fenced

-- reconnectStepLocked by the queue of reconnects.
unfoldable pub step_head :
    Bool → ℕ → List ReconnectWaiter → SessionState → SessionState × ReconnectStep
unfolding fence_streams
step_head root_done w [] s = (s, breaks)
step_head root_done w (head ∷ rest) s =
    if not (head.token == w) || is_some s.active_mutation
    then (s, waits s.changed)
    else fence_streams root_done head rest s

-- reconnectStepLocked; `closed` is closedLocked.
unfoldable pub reconnect_step :
    Bool → Bool → Bytes → ℕ → ℕ → SessionState → SessionState × ReconnectStep
unfolding step_head
reconnect_step closed root_done client expected w s =
    if closed
    then (remove_reconnect_waiter w s, fails store_closed)
    else if not (s.epoch == expected)
    then (remove_reconnect_waiter w s, fails (stale_session client s.epoch expected))
    else step_head root_done w s.reconnect_waiters s
