-- ===== src/Replay.antt =====
-- src/core/replay-pruning.ts and src/core/replay-manager.ts: the replay history of a topic.
pub mod Pruning
pub mod PruningLaws
pub mod Order
pub mod Retry
pub mod RetryLaws
pub mod Manager
pub mod Hydration
pub mod Events
pub mod Buffers
pub mod Slot
pub mod Frame
pub mod Delivery
pub mod Merge
pub mod Capped
pub mod Stats
