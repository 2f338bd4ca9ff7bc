-- ===== src/Handler.antt =====
-- handler.go: how the two ends of the plugin are built, and the goroutine that relays a connection.
pub mod Relay
pub mod Ends
pub mod System
