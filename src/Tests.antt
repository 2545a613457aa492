-- ===== src/Tests.antt =====
-- Concrete runs of the parts, at which the theorems' hypotheses hold.
mod Cluster
mod Codec
mod Routing
mod Dedup
mod Replay
mod Storage
mod Workers
mod Runtime
mod Trace
mod Validation
