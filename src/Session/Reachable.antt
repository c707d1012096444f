-- ===== src/Session/Reachable.antt =====
-- daemon/session_gate.go, daemon/session_reconnect.go: the calls on one client in any order.
use spice_agent.Base.{ℕ, ◌≤◌, ◌<◌, Bool, Option, arith, max_u64, Bytes}
use spice_agent.Session.Types.{SessionState, maximum_streams}
use spice_agent.Session.Gate.{
  gate_waiters, try_acquire_mutation, try_acquire_stream, remove_mutation_waiter,
  remove_stream_waiter, release_mutation, release_stream,
}
use spice_agent.Session.Reconnect.{register_reconnect, remove_reconnect_waiter, reconnect_step}
use spice_agent.Session.Store.{first_epoch}
use spice_agent.Session.Soundness.{
  ActiveIn, IsSound, try_acquire_mutation-IsSound, try_acquire_stream-IsSound,
  remove_mutation_waiter-IsSound, remove_stream_waiter-IsSound,
}
use spice_agent.Session.Epochs.{
  release_mutation-IsSound, release_stream-IsSound, register_reconnect-IsSound,
  remove_reconnect_waiter-IsSound, reconnect_step-IsSound,
}

-- One call under the lock, as it changes the state of the client. A reconnect is registered only below
-- the last epoch.
pub data Call : SessionState → SessionState → Type 0 where
  commits :
      (s : SessionState) (waiter : Option ℕ) (fresh : ℕ)
      → Call s (try_acquire_mutation s waiter fresh).0
  streams :
      (s : SessionState) (maximum : ℕ) (waiter : Option ℕ) (fresh : ℕ)
      → maximum ≤ maximum_streams
      → Call s (try_acquire_stream maximum s waiter fresh).0
  leaves_commit : (s : SessionState) (w : ℕ) → Call s (remove_mutation_waiter w s)
  leaves_stream : (s : SessionState) (w : ℕ) → Call s (remove_stream_waiter w s)
  leaves_reconnect : (s : SessionState) (w : ℕ) → Call s (remove_reconnect_waiter w s)
  ends_commit : (s : SessionState) (token : ℕ) → Call s (release_mutation token s)
  ends_stream : (s : SessionState) (token : ℕ) → Call s (release_stream token s)
  registers :
      (s : SessionState) (expected fresh : ℕ) → Call s (register_reconnect expected s fresh).0
  reconnects :
      (s : SessionState) (closed root_done : Bool) (client : Bytes) (expected w : ℕ)
      → expected < max_u64
      → Call s (reconnect_step closed root_done client expected w s).0

pub data Calls : SessionState → SessionState → Type 0 where
  done : (s : SessionState) → Calls s s
  then : (s t u : SessionState) → Calls s t → Call t u → Calls s u

Call-IsSound : (s t : SessionState) → Call s t → IsSound s → IsSound t
Call-IsSound s _ (commits _ waiter fresh) v = try_acquire_mutation-IsSound s waiter fresh v
Call-IsSound s _ (streams _ maximum waiter fresh bound) v =
    try_acquire_stream-IsSound maximum s waiter fresh bound v
Call-IsSound s _ (leaves_commit _ w) v = remove_mutation_waiter-IsSound w s v
Call-IsSound s _ (leaves_stream _ w) v = remove_stream_waiter-IsSound w s v
Call-IsSound s _ (leaves_reconnect _ w) v = remove_reconnect_waiter-IsSound w s v
Call-IsSound s _ (ends_commit _ token) v = release_mutation-IsSound token s v
Call-IsSound s _ (ends_stream _ token) v = release_stream-IsSound token s v
Call-IsSound s _ (registers _ expected fresh) v = register_reconnect-IsSound expected s fresh v
Call-IsSound s _ (reconnects _ closed root_done client expected w fits) v =
    reconnect_step-IsSound closed root_done client expected w s fits v

first_epoch-IsSound : IsSound first_epoch
unfolding gate_waiters ActiveIn
first_epoch-IsSound = record {
  epoch_positive = omega arith;
  epoch_fits = omega arith;
  streams_current = tt;
  active_current = tt;
  few_waiters = omega arith;
  few_streams = omega arith;
}

-- After any sequence of calls on a fresh session, with stream bounds up to the maximum and reconnects
-- that expect an epoch below the last, the epoch is positive and fits 64 bits, every stream lease and
-- the commit lease belong to the epoch, and the waiters and the streams are within their bounds.
pub Calls-IsSound : (s : SessionState) → Calls first_epoch s → IsSound s
Calls-IsSound s (done _) = first_epoch-IsSound
Calls-IsSound s (then _ t _ before call) = Call-IsSound t s call (Calls-IsSound t before)
