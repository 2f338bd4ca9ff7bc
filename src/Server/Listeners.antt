-- ===== src/Server/Listeners.antt =====
-- The constructors of gost/proxy/server and `NewTCPListener` of gost/proxy/tcp.go.
pub mod Errors
use gost_plugin.Args.Addr.{Options, get_local_addr}
use gost_plugin.Common.{Bool, Bytes, List, Option, [], codes, none, not, some, ◌∷◌}
use gost_plugin.Foreign.{Calls, Outcome, done, failed, ok, pure_call, ◌>>=◌}
use gost_plugin.Proxy.Sockets.{Host, open_socket, pointer, tcp_binding, udp_binding}
use gost_plugin.Server.Certificate.{ServerConfig, build_server_tls_config}

-- What serves the connections of a listener: `KeepAccepting`, an `Upgrade` at a path by an upgrader
-- that compresses or not, `serveHTTP` at a path, `Tun` of a service, the streams of QUIC, or
-- `ServeMux` on top of one of these.
pub data Serving : Type 0 where
  raw : Serving
  websocket : Bytes → Bool → Serving
  http2 : Bytes → Serving
  grpc : Bytes → Serving
  quic : Serving
  multiplexed : Serving → Serving

-- `tls` is what `tls.NewListener`, the gRPC credentials or quic.Listen were given.
pub record Listener (L K : Type 0) : Type 0 where
  pub socket : L
  pub tls : Option (ServerConfig K)
  pub serving : Serving

module _ {L K : Type 0} (host : Host L K) where
  abbrev Making : Type 0
  Making = Calls (List L) (Listener L K)

  unfoldable pub server_config : Options → Calls (List L) (ServerConfig K)
  unfolding build_server_tls_config
  server_config o = pure_call (build_server_tls_config host.load o)

  unfoldable pub new_tcp_listener : Options → Calls (List L) (Listener L K)
  unfolding open_socket tcp_binding get_local_addr
  new_tcp_listener o = do
    l ← open_socket host (tcp_binding (pointer (host.resolve (get_local_addr o))))
    done (record { socket = l; tls = none; serving = raw })

  unfoldable pub new_tls_listener : Options → Calls (List L) (Listener L K)
  unfolding new_tcp_listener server_config
  new_tls_listener o = do
    l ← new_tcp_listener o
    config ← server_config o
    done (record l { tls = some config })

  unfoldable pub new_mtls_listener : Options → Calls (List L) (Listener L K)
  unfolding new_tls_listener
  new_mtls_listener o = do l ← new_tls_listener o; done (record l { serving = multiplexed raw })

  unfoldable pub new_ws_listener : Options → Calls (List L) (Listener L K)
  unfolding new_tcp_listener
  new_ws_listener o = do
    l ← new_tcp_listener o
    done (record l { serving = websocket o.path (not o.nocomp) })

  unfoldable pub new_wss_listener : Options → Calls (List L) (Listener L K)
  unfolding new_ws_listener server_config
  new_wss_listener o = do
    l ← new_ws_listener o
    config ← server_config o
    done (record l { tls = some config })

  unfoldable pub new_mws_listener : Options → Calls (List L) (Listener L K)
  unfolding new_ws_listener
  new_mws_listener o = do
    l ← new_ws_listener o
    done (record l { serving = multiplexed (websocket o.path (not o.nocomp)) })

  unfoldable pub new_mwss_listener : Options → Calls (List L) (Listener L K)
  unfolding new_mws_listener server_config
  new_mwss_listener o = do
    l ← new_mws_listener o
    config ← server_config o
    done (record l { tls = some config })

  unfoldable pub new_gun_listener : Options → Calls (List L) (Listener L K)
  unfolding new_tcp_listener server_config
  new_gun_listener o = do
    l ← new_tcp_listener o
    config ← server_config o
    done (record l { tls = some config; serving = grpc o.service_name })

  unfoldable pub new_h2_listener : Options → Calls (List L) (Listener L K)
  unfolding new_tcp_listener server_config
  new_h2_listener o = do
    l ← new_tcp_listener o
    config ← server_config o
    done (record l {
      tls = some (record config { next_protos = codes "h2" ∷ [] });
      serving = http2 o.path;
    })

  -- `quic.Listen` on the packet socket.
  abbrev pub quic_listener : L → ServerConfig K → Option Bytes → Outcome (Listener L K)
  quic_listener l config (some err) = failed err
  quic_listener l config none = ok (record { socket = l; tls = some config; serving = quic })

  unfoldable pub new_quic_listener : Options → Calls (List L) (Listener L K)
  unfolding open_socket udp_binding server_config get_local_addr
  new_quic_listener o = do
    config ← server_config o
    l ← open_socket host (udp_binding (pointer (host.resolve (get_local_addr o))))
    pure_call
        (quic_listener l (record config { next_protos = codes "h3" ∷ [] }) (host.listen_quic l))
