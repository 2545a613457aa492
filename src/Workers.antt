-- ===== src/Workers.antt =====
-- src/workers/port-reaper.ts: the class `PortReaper`.
pub mod Reaper
pub mod Reaping
pub mod Tracking
pub mod Cadence
pub mod Interval
