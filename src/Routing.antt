-- ===== src/Routing.antt =====
-- src/core/routing.ts: owner selection, the estimate of a size, and topic patterns.
pub mod Load
pub mod Select
pub mod Payload
pub mod Topics
pub mod LoadLaws
pub mod SelectLaws
pub mod ActiveLaws
pub mod OrderLaws
pub mod TopicsLaws
pub mod SortLaws
