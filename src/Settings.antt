-- ===== src/Settings.antt =====
-- settings.go and runtime_auth.go: the configuration that the web interface changes, and the client key.
pub mod Store
pub mod Valid
mod Tests
