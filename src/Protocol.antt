-- ===== src/Protocol.antt =====
-- The connections of gost/protocol: gun/conn.go, websocket/conn.go, http/conn.go, quic/conn.go; and the base64 by
-- which early data travels in a WebSocket handshake.
pub mod Address
pub mod Stream
pub mod Gun
pub mod Websocket
pub mod Http
pub mod Quic
pub mod Base64
