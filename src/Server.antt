-- ===== src/Server.antt =====
-- gost/proxy/server: the listeners of the transports.
pub mod Upgrade
pub mod Streams
pub mod Certificate
pub mod Listeners
pub mod Serve
