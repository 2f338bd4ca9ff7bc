-- ===== src/Lib.antt =====
-- gost-plugin: a SIP003 plugin for shadowsocks that carries its connections over WebSocket, HTTP/2,
-- gRPC, QUIC or TLS, with or without multiplexing.
--
-- A process runs as a client or as a server (main.go, handler.go). Its options come from flags and
-- from the environment (args). The registry gives the listener or the transporter of the mode; the
-- other end is plain TCP. A listener sends each connection it accepts to a channel; the handler takes
-- it from there, dials through the transporter, and copies both ways.
--
-- The files and what they model:
--   Common: shared names, tests on numbers, lists, texts as lists of bytes.
--   Args: args/args.go. `Options` is the struct, `Entries` the type `Args`; Unescape, Plugin, Escape,
--     Map, Env, Apply hold indexUnescaped, parsePluginOptions, backslashEscape with
--     encodeSmethodArgs, Get and Add, parseEnv, ApplyOptions; Number holds what they use of
--     strconv.ParseUint and %d.
--   Proxy: gost/proxy/tcp.go (the channel, KeepAccepting, KeepMuxAccepting, ServeMux) and
--     errors/error.go; Sockets holds Listen, ListenPacket, the dialer and keep-alive.
--   Conn: net.Conn as an interface with the laws of a reader and a writer, and io.Copy over it.
--   Protocol: gost/protocol/gun/conn.go, websocket/conn.go, http/conn.go and quic/conn.go, each with its
--     methods as those of Conn, and base64, by which early data travels in a header.
--   Foreign: results of foreign calls, and chains of them.
--   Web: net/url and net/http as parameters, with what they document of plain paths: "/", or segments of
--     letters, digits, "-" and "_".
--   Client: gost/proxy/client/ws.go (Ws), tls.go and grpc_tls.go (Tls), quic.go (Quic), DialConn of
--     TLS and DialTLS of h2.go (Dial), DialConn of h2.go (H2), gun.go with gost/protocol/gun/gun.go
--     (Gun), mtls.go and mws.go (Multiplexed), and every constructor (Transporters).
--   Server: gost/proxy/server/ws.go, mws.go, h2.go and gun.go (Upgrade), quic.go (Streams), tls.go
--     (Certificate), every constructor (Listeners), and Serve of each listener for one connection that
--     arrives (Serve).
--   Mux: mux/mux.go and the interface of mux/client.go; System is the pool over its life.
--   Registry: registry/registry.go.
--   Handler: handler.go; Ends is newHandler, Relay the goroutine of one connection, System the whole
--     of Serve.
--   Hook: hook/vpn_android.go, and fastopen_linux.go with fastopen_windows.go (FastOpen).
--   Log: log/log.go.
--   Modes: the registrations of gost/proxy, both ends of a mode, what a dial brings to the server
--     (Arrive), the listener over its life (Live), a stream of gRPC at a server (Method), and two
--     processes together.
--   Tunnel: both ends of a WebSocket together, and two handlers that copy with a tunnel between them,
--     over WebSocket, gRPC, HTTP/2 and QUIC.
--   Main: main.go; the defaults of the flags, the log level, and Run, from there to the end.
--   Tests: tests, and the theorems at concrete inputs.
--
-- Foreign code (smux, gorilla/websocket, grpc, quic, utls, the operating system) is a parameter: a
-- record of operations, on a state of the outside world where they change it (Mux.Smux, Client.Quic,
-- Client.Dial, Proxy.Sockets, Hook, Protocol.Quic, Web), or the sequence of results that its calls return.
-- What is relied on of it is a record of laws: `Lawful` and `Steady` of smux, `Counts` of quic, `Sends` of
-- a stream of messages, `Flushes` of a writer of HTTP, `Readable` and `Writable` of a connection,
-- `Documented` of URLs, requests and `http.ServeMux`, on plain paths only. A failure of a call is an
-- error by its text. Goroutines are sequences of events or, for the handler, a step relation; a mutex
-- makes a call one step. Maps are lists of entries whose order stands for Go's order of iteration.
--
-- Numbers are natural numbers; `uint` has 64 bits, and a conversion to `int` that would be negative
-- is written out. The parser of plugin options runs on fuel above the length of its text, since every
-- pair takes a byte; readers that drain a connection, and io.Copy, run on fuel above the bytes and
-- calls to come.
--
-- Not modelled: the parsing of flags in main.go, the generated code of gRPC, the C code of
-- hook/vpn_android.go, and settings that foreign code alone reads (time limits, back-off, keep-alive).
-- An `AcceptConn` and a `Close` that only pass the call on have no definition for each listener.
pub mod Common
pub mod Conn
pub mod Foreign
pub mod Hook
pub mod Log
pub mod Args
pub mod Proxy
pub mod Protocol
pub mod Client
pub mod Mux
pub mod Registry
pub mod Handler
pub mod Server
pub mod Main
pub mod Modes
pub mod Tunnel
pub mod Web
mod Tests
