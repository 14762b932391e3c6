-- ===== src/Auth.antt =====
-- auth.go: the administrator's password, the sessions of the web interface, and the throttling of
-- guesses.
pub mod Password
pub mod Store
pub mod Throttle
pub mod Roundtrip
pub mod Refines
mod Tests
