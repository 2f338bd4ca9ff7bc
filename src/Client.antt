-- ===== src/Client.antt =====
-- Package client: gost/proxy/client, a module for each transport that has state or choices of its own.
pub mod Ws
pub mod Dial
pub mod H2
pub mod Gun
pub mod Tls
pub mod Quic
pub mod Multiplexed
pub mod Transporters
