-- ===== src/Session.antt =====
-- daemon/session.go, daemon/session_gate.go, daemon/session_reconnect.go and daemon/session_errors.go:
-- client ownership epochs with their commit and stream gates.
pub mod Types
pub mod Gate
pub mod Reconnect
pub mod Store
pub mod Turns
pub mod Soundness
pub mod Epochs
pub mod Fencing
pub mod Reachable
pub mod Grants
mod Examples
