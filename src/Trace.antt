-- ===== src/Trace.antt =====
-- src/core/trace.ts: diagnostics, metrics windows and the latency histogram.
pub mod Histogram
pub mod Window
pub mod Reporter
pub mod Ranks
pub mod Queues
pub mod Sound
pub mod Calls
pub mod Valid
pub mod Described
pub mod Capped
pub mod Delivery
pub mod Silence
