-- ===== src/Session/Types.antt =====
-- daemon/session.go, daemon/session_errors.go, daemon/definition.go: the state of one client, the
-- failures, and the token test.
use spice_agent.Base.{
  ℕ, Bool, true, false, ◌&&◌, ◌||◌, if◌then◌else◌, ltb, leb, ◌==◌, length, List, [], ◌∷◌, Option,
  Bytes, blank_or_padded, ContextError,
}

-- A commit or stream lease, or a waiter: `token` is the identity of the pointer. `epoch` is the epoch
-- whose context the lease derives from.
pub record Lease : Type 0 where
  pub token : ℕ
  pub epoch : ℕ

-- reconnectWaiter
pub record ReconnectWaiter : Type 0 where
  pub token : ℕ
  pub fencing : Bool

-- sessionState. `changed` counts the channels that were closed to wake the waiters.
pub record SessionState : Type 0 where
  pub epoch : ℕ
  pub changed : ℕ
  pub active_mutation : Option Lease
  pub mutation_waiters : List ℕ
  pub reconnect_waiters : List ReconnectWaiter
  pub stream_waiters : List ℕ
  pub streams : List Lease

pub data GateResource : Type 0 where
  session_gate_waiters stream_leases : GateResource

pub data SessionError : Type 0 where
  store_closed unknown_session epoch_overflow invalid_token : SessionError
  capacity_exhausted unique_id_exhausted random_failed invalid_limit : SessionError
  stale_session : Bytes → ℕ → ℕ → SessionError
  gate_capacity : GateResource → ℕ → SessionError
  context_failed : ContextError → SessionError

-- maximumSessionGateWaitersPerClient
abbrev pub maximum_gate_waiters : ℕ
maximum_gate_waiters = 64

-- maximumSessionStreamsPerClient
abbrev pub maximum_streams : ℕ
maximum_streams = 256

-- maximumSessions
abbrev pub maximum_sessions : ℕ
maximum_sessions = 4096

-- unicode.IsControl on some rune of a UTF-8 string: U+0000 to U+001F and U+007F in one byte, U+0080 to
-- U+009F in two.
unfoldable pub has_control : Bytes → Bool
has_control [] = false
has_control (a ∷ []) = ltb a 32 || a == 127
has_control (a ∷ b ∷ r) =
    let rest = has_control (b ∷ r) in
    if ltb a 32 || a == 127 || (a == 0xc2 && leb 0x80 b && leb b 0x9f) then true else rest

-- boundedToken, as a test that the string passes.
unfoldable pub bounded_token : Bytes → Bool
unfolding has_control
bounded_token value =
    if blank_or_padded value || ltb 128 (length value)
    then false
    else if has_control value
    then false
    else true
