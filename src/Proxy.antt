-- ===== src/Proxy.antt =====
-- Package proxy (gost/proxy/tcp.go) and package errors (errors/error.go): the accept loops, and the
-- channel of accepted connections.
pub mod Errors
pub mod Queue
pub mod Accept
pub mod Sockets
