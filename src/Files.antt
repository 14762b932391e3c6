-- ===== src/Files.antt =====
-- replace_file_unix.go, settings.go and manager.go: how the configuration and the state are put on disk.
pub mod Defs
pub mod Save
pub mod Atomic
pub mod Unnoticed
mod Tests
