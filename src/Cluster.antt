-- ===== src/Cluster.antt =====
-- src/core/cluster.ts, the class `WorkerClusterRuntime`.
pub mod Cache
pub mod CacheLaws
pub mod Registry
pub mod RegistryLaws
pub mod Frames
pub mod Runtime
pub mod Control
pub mod Claims
pub mod Handoff
pub mod Passes
pub mod Inbox
pub mod Lifecycle
pub mod Tasks
pub mod Coherence
pub mod Settled
pub mod Authority
pub mod Release
pub mod Posting
pub mod Handover
pub mod Claiming
pub mod Departure
pub mod Leaving
pub mod Pausing
