-- ===== src/Server/Serve.antt =====
-- `Serve` of each listener, for one connection that arrives: what the foreign code below hands to the
-- program, and what the program sends to the channel.
use gost_plugin.Client.Gun.{server_desc}
use gost_plugin.Client.Gun.Laws.{methods}
use gost_plugin.Common.{Bool, Bytes, List, [], equal, false, if◌then◌else◌, none, true, ◌&&◌, ◌∷◌}
use gost_plugin.Foreign.{Outcome, failed, ok}
use gost_plugin.Proxy.Queue.{Queue}
use gost_plugin.Server.Listeners.{Serving, grpc, http2, multiplexed, quic, raw, websocket}
use gost_plugin.Server.Streams.{accept_streams, serving}
use gost_plugin.Server.Upgrade.{Request, mux_upgrade, serve_http, tun, upgrade}
use gost_plugin.Web.{Web}
use gost_plugin.Foreign as Calling
use gost_plugin.Proxy.Accept as Accepting

-- A connection that `Accept` returns, a request with what the upgrader makes of it, a stream of gRPC for
-- a method, nothing, a stream of a QUIC session, and a stream of smux on what arrives below.
pub data Arrival (N : Type 0) : Type 0 where
  plain : N → Arrival N
  request : Request → Outcome N → Arrival N
  call : Bytes → N → Arrival N
  lost : Arrival N
  session_stream : N → Arrival N
  muxed : Arrival N → N → Arrival N

-- The channel; each connection with the bytes that it starts with.
abbrev pub Channel : Type 0 → Type 0
Channel N = Queue (N × Bytes)

-- gRPC runs `Tun` for the methods of the registered service.
unfoldable pub is_method : Bytes → List Bytes → Bool
unfolding equal
is_method m [] = false
is_method m (n ∷ ns) = if equal m n then true else is_method m ns

-- Whether `ServeMux` is started.
abbrev pub any_served : {A : Type 0} → List A → Bool
any_served [] = false
any_served (a ∷ rest) = true

-- Whether the `ServeMux` of a listener, which has its handler at the path of the options, runs it for a
-- request.
abbrev pub handles : Web → Bytes → Request → Bool
handles web path r = web.routed path r.path

module _ (web : Web) {N : Type 0} where
  -- `Serve` of TCPListener and TLSListener.
  unfoldable pub serve_raw : Channel N → Arrival N → Channel N
  unfolding Accepting.keep_accepting
  serve_raw q (plain n) =
      (Accepting.keep_accepting (record { queue = q; running = true })
        (Accepting.accepts (Accepting.conn (n, [])) ∷ [])).queue
  serve_raw q _ = q

  -- `Serve` of WSListener: its `ServeMux` has the handler `Upgrade` at the path of the options.
  unfoldable pub serve_websocket : Bytes → Channel N → Arrival N → Channel N
  unfolding upgrade
  serve_websocket path q (request r o) =
      let handled = (upgrade path q r o).0 in if handles web path r then handled else q
  serve_websocket path q _ = q

  abbrev pub http2_served : Bytes → Channel N → Request → Outcome N → Channel N
  http2_served path q r (Calling.ok n) = (serve_http path q r (n, [])).0
  http2_served path q r (Calling.failed err) = q

  -- `Serve` of H2Listener, whose `ServeMux` has `serveHTTP` at that path.
  unfoldable pub serve_http2 : Bytes → Channel N → Arrival N → Channel N
  unfolding serve_http
  serve_http2 path q (request r o) =
      let handled = http2_served path q r o in if handles web path r then handled else q
  serve_http2 path q _ = q

  -- `Serve` of GunListener, whose server has the service of that name.
  unfoldable pub serve_grpc : Bytes → Channel N → Arrival N → Channel N
  unfolding tun is_method
  serve_grpc name q (call m n) =
      if is_method m (methods (server_desc name)) then tun q (n, []) else q
  serve_grpc name q _ = q

  -- `Serve` of QUICListener, behind the start of `acceptStreams` for a session.
  unfoldable pub serve_quic : Channel N → Arrival N → Channel N
  unfolding accept_streams
  serve_quic q (session_stream n) = (accept_streams (serving q) (Accepting.conn (n, []) ∷ [])).queue
  serve_quic q _ = q

  -- `Serve` of MTLSListener, up to the start of `ServeMux`.
  unfoldable pub mux_raw : Arrival N → Bool
  unfolding Accepting.keep_mux_accepting
  mux_raw (plain n) =
      any_served
        (Accepting.keep_mux_accepting (record { served = []; running = true })
          (Accepting.conn n ∷ [])).served
  mux_raw _ = false

  -- `Serve` of MWSListener, whose `ServeMux` has the handler of that listener.
  unfoldable pub mux_websocket : Bytes → Arrival N → Bool
  unfolding mux_upgrade
  mux_websocket path (request r o) =
      handles web path r
      && any_served (mux_upgrade path (record { served = []; left_open = [] }) r o).0.served
  mux_websocket path _ = false

  abbrev pub mux_starts : Serving → Arrival N → Bool
  mux_starts raw a = mux_raw a
  mux_starts (websocket path compression) a = mux_websocket path a
  mux_starts _ a = false

  -- `ServeMux` on what arrives below.
  unfoldable pub serve_multiplexed : Serving → Channel N → Arrival N → Channel N
  unfolding Accepting.serve_mux mux_raw mux_websocket
  serve_multiplexed s q (muxed a n) =
      if mux_starts s a
      then (Accepting.serve_mux none q (Accepting.stream (n, []) ∷ [])).queue
      else q
  serve_multiplexed s q _ = q

  -- `Serve` by the kind of the listener.
  unfoldable pub serve : Serving → Channel N → Arrival N → Channel N
  unfolding serve_raw serve_websocket serve_http2 serve_grpc serve_quic serve_multiplexed
  serve raw q a = serve_raw q a
  serve (websocket path compression) q a = serve_websocket path q a
  serve (http2 path) q a = serve_http2 path q a
  serve (grpc name) q a = serve_grpc name q a
  serve quic q a = serve_quic q a
  serve (multiplexed s) q a = serve_multiplexed s q a
