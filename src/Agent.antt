-- ===== src/Agent.antt =====
-- agent: the ledger of run identities, the admission of runs to the engine, and the turn loop.
pub mod Ledger
pub mod Transitions
pub mod Tokens
pub mod Counted
pub mod Counting
pub mod Holding
pub mod Engine
pub mod Lifecycle
pub mod Admission
pub mod Admitting
pub mod Handles
pub mod Preparing
pub mod Steps
pub mod Reached
pub mod Emitter
pub mod Emission
pub mod Draining
pub mod Turn
pub mod Execute
pub mod Balance
pub mod Turns
pub mod Cancelled
pub mod Tools
pub mod Openings
pub mod Rounds
mod Examples
