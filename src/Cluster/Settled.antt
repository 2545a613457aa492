-- ===== src/Cluster/Settled.antt =====
-- About src/core/cluster.ts: after a reconciliation the tab's topics have live owners, and its
-- assignments are those that the routes give it.
pub mod Live
pub mod Control
pub mod Serving
pub mod Assigned
pub mod Early
pub mod Reconciled
