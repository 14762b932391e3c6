-- ===== src/Server.antt =====
-- main.go, client_routes.go and proxy.go: what the program serves.
pub mod Proxies
pub mod Routing
pub mod State
pub mod Handlers
pub mod Serve
pub mod Guards
pub mod Strangers
pub mod Guesses
pub mod Connections
mod Tests
