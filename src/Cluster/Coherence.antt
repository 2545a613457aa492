-- ===== src/Cluster/Coherence.antt =====
-- About src/core/cluster.ts: every task of a tab keeps the keys of the routes and of its topics
-- true to their names.
mod Defs
mod Control
mod Claims
mod Handoff
mod Stranded
mod Passes
mod Inbox
pub mod Tasks
pub use Defs.{Keyed, AreRoutes, Restores, IsCoherent, Allowed}
