-- ===== src/Log.antt =====
-- event/log.go: the bounded replay log of one run and its subscriptions.
pub mod Types
pub mod Subscription
pub mod Store
pub mod Replay
pub mod Evict
pub mod Invariant
pub mod Append
pub mod Reserve
pub mod Cursor
pub mod Pages
pub mod Gapless
pub mod Recovery
pub mod Delivery
pub mod Deliver
pub mod System
pub mod Tracking
pub mod Growth
pub mod Joining
pub mod Subscribing
pub mod Reachable
pub mod Served
pub mod Feeding
mod Examples
