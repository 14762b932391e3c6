-- ===== src/Socks.antt =====
-- socks5.go and client_routes.go: the two ends of the SOCKS5 handshake.
pub mod Stream
pub mod Dial
pub mod Negotiate
pub mod Handshake
mod Tests
