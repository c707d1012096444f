-- ===== src/Hub.antt =====
-- daemon/pending.go: the hub of pending interactions.
pub mod Types
pub mod Limits
pub mod Watchers
pub mod Store
pub mod Operations
pub mod Observing
pub mod Closing
pub mod Booking
pub mod Isolation
pub mod Publish
pub mod Accounts
pub mod Shares
pub mod ShareCalls
pub mod ShareWatchers
pub mod ShareDeliveries
pub mod Sound
pub mod SoundCalls
pub mod SoundObservers
pub mod Reachable
pub mod Funding
pub mod Takers
pub mod Runs
pub mod RunCalls
pub mod RunDrops
pub mod RunEnds
pub mod RunObservers
pub mod RunReached
pub mod Bounds
pub mod Partitions
pub mod KeptCalls
pub mod Kept
pub mod Replay
pub mod Changes
pub mod Mirror
pub mod Watched
pub mod Observers
pub mod Answers
mod Examples
