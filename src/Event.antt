-- ===== src/Event.antt =====
-- event/event.go: envelopes, their kinds, the sequencer that numbers them, and the best-effort
-- mailbox.
pub mod Kind
pub mod Envelope
pub mod Sequencer
pub mod Observer
pub mod Mailbox
mod Examples
