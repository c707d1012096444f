-- ===== src/Restart.antt =====
-- plugin/host/restart.go: the policy for the restart of a plugin.
pub mod Policy
pub mod Backoff
mod Examples
