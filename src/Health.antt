-- ===== src/Health.antt =====
-- health.go: the monitor that probes the routes and changes the node of one that keeps failing.
pub mod Monitor
pub mod Pause
pub mod Round
pub mod Report
pub mod Rounds
pub mod Reports
mod Tests
