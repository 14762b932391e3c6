-- ===== src/Manager.antt =====
-- manager.go: the Tor instances, one for each country, and their processes.
pub mod Defs
pub mod Persist
pub mod Stop
pub mod Start
pub mod Traffic
pub mod Ready
pub mod ExitLookup
pub mod Watch
pub mod Replace
pub mod Nodes
pub mod Limits
pub mod Control
pub mod Logs
pub mod Upstream
pub mod Applied
pub mod System
pub mod Calm
pub mod Steps
pub mod Ordered
pub mod Counters
pub mod Restarts
pub mod Lost
pub mod Draining
pub mod Down
pub mod Running
pub mod Reserve
mod Tests
