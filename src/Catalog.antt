-- ===== src/Catalog.antt =====
-- catalog.go: the catalog of exit nodes and the choice among them.
pub mod Nodes
pub mod Best
pub mod Names
pub mod Policy
pub mod Refresh
pub mod Sound
pub mod Counts
pub mod Ranges
mod Tests
