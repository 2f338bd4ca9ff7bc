-- ===== src/Client/Transporters.antt =====
-- The constructors of gost/proxy/client and `NewTCPTransporter` of gost/proxy/tcp.go.
use gost_plugin.Args.Addr.{Options, get_remote_addr}
use gost_plugin.Client.Tls.{TlsConfig, build_client_tls_config}
use gost_plugin.Common.{Bool, Bytes, Option, [], codes, none, some, ℕ, ◌∷◌}
use gost_plugin.Foreign.{Calls, Outcome, done, failed, ok, pure_call, ◌>>=◌}

-- The transporters, each with the one that it embeds; `multiplexed` has the limit that `NewMuxPool`
-- takes from the options, and `http2` and `grpc` the TLS configuration that they are built with.
pub data Transporter : Type 0 where
  tcp : Options → Transporter
  tls : Transporter → Transporter
  websocket : Transporter → Transporter
  multiplexed : Transporter → ℕ → Transporter
  http2 : Transporter → Options → TlsConfig → Transporter
  grpc : Transporter → Options → TlsConfig → Transporter
  quic : Options → Transporter

module _ (parses_ip : Bytes → Bool) where
  -- `tlsConfig.NextProtos = []string{"h2"}`
  abbrev pub h2_config : Options → TlsConfig
  h2_config o = record (build_client_tls_config parses_ip o) { next_protos = codes "h2" ∷ [] }

  abbrev pub grpc_transporter : Transporter → Options → Option Bytes → Outcome Transporter
  grpc_transporter t o (some err) = failed err
  grpc_transporter t o none = ok (grpc t o (h2_config o))

-- `parses_ip` stands for `net.ParseIP(s) != nil`, and `grpc_dial` is the error of grpc.Dial.
module _ {W : Type 0} (parses_ip : Bytes → Bool) (grpc_dial : Bytes → Option Bytes) where
  unfoldable pub new_tcp_transporter : Options → Calls W Transporter
  new_tcp_transporter o = done (tcp o)

  unfoldable pub new_tls_transporter : Options → Calls W Transporter
  unfolding new_tcp_transporter
  new_tls_transporter o = do t ← new_tcp_transporter o; done (tls t)

  unfoldable pub new_mtls_transporter : Options → Calls W Transporter
  unfolding new_tls_transporter
  new_mtls_transporter o = do t ← new_tls_transporter o; done (multiplexed t o.mux)

  unfoldable pub new_ws_transporter : Options → Calls W Transporter
  unfolding new_tcp_transporter
  new_ws_transporter o = do t ← new_tcp_transporter o; done (websocket t)

  unfoldable pub new_wss_transporter : Options → Calls W Transporter
  unfolding new_tls_transporter
  new_wss_transporter o = do t ← new_tls_transporter o; done (websocket t)

  unfoldable pub new_mws_transporter : Options → Calls W Transporter
  unfolding new_ws_transporter
  new_mws_transporter o = do t ← new_ws_transporter o; done (multiplexed t o.mux)

  unfoldable pub new_mwss_transporter : Options → Calls W Transporter
  unfolding new_wss_transporter
  new_mwss_transporter o = do t ← new_wss_transporter o; done (multiplexed t o.mux)

  unfoldable pub new_h2_transporter : Options → Calls W Transporter
  unfolding new_tcp_transporter build_client_tls_config
  new_h2_transporter o = do t ← new_tcp_transporter o; done (http2 t o (h2_config parses_ip o))

  unfoldable pub new_gun_transporter : Options → Calls W Transporter
  unfolding new_tcp_transporter build_client_tls_config get_remote_addr
  new_gun_transporter o = do
    t ← new_tcp_transporter o
    pure_call (grpc_transporter parses_ip t o (grpc_dial (get_remote_addr o)))

  unfoldable pub new_quic_transporter : Options → Calls W Transporter
  new_quic_transporter o = done (quic o)
