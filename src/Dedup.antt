-- ===== src/Dedup.antt =====
-- src/core/dedup-manager.ts: duplicate suppression by message id.
pub mod Manager
pub mod Ttl
pub mod Entries
pub mod Bounded
pub mod History
