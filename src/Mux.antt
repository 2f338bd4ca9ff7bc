-- ===== src/Mux.antt =====
-- Package mux: mux/mux.go and the interface of mux/client.go.
pub mod Smux
pub mod Pool
pub mod Keys
pub mod Clean
pub mod System
pub mod Limit
pub mod Within
pub mod Sharing
