-- ===== src/Config.antt =====
-- config.go: the configuration, its defaults and its validation.
pub mod Defs
pub mod Validate
pub mod Ports
pub mod Load
mod Tests
