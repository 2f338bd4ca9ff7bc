-- ===== src/Client/Dial.antt =====
-- `DialConn` of TCPTransporter (gost/proxy/tcp.go) and of TLSTransporter (gost/proxy/client/tls.go),
-- and the `DialTLS` of `NewH2Transporter` (gost/proxy/client/h2.go).
pub mod Laws
use gost_plugin.Args.Addr.{Options}
use gost_plugin.Client.Tls.{TlsConfig, TlsConn, build_client_tls_config, new_client_tls_conn}
use gost_plugin.Common.{
  Bool, Bytes, List, Option, [], codes, equal, if◌then◌else◌, none, some, ◌++◌, ◌∷◌,
}
use gost_plugin.Foreign.{Calls, Outcome, failed, ok, pure_call, ◌>>=◌}
use gost_plugin.Proxy.Sockets.{DialSetup, dial_setup}

-- The foreign calls: `dial` is that of `net.Dialer`, `shake_hands` is `Handshake`, by its error, and
-- `negotiated` is `NegotiatedProtocol`. A connection is opened by `dial`.
pub record Network (N : Type 0) : Type 0 where
  pub dial : DialSetup → Outcome N
  pub shake_hands : N → TlsConn → Option Bytes
  pub negotiated : N → TlsConn → Bytes

-- A TLS connection, with the connection below.
abbrev pub Secured : Type 0 → Type 0
Secured N = N × TlsConn

module _ {N : Type 0} where
  abbrev pub dialled : List N → Outcome N → List N × Outcome N
  dialled opened (ok n) = (opened ++ n ∷ [], ok n)
  dialled opened (failed err) = (opened, failed err)

  -- The state is the connections opened and not closed, oldest first. None is closed below.
  unfoldable pub tcp_dial_conn : Network N → Options → Calls (List N) N
  unfolding dial_setup
  tcp_dial_conn net o opened = dialled opened (net.dial (dial_setup o))

  -- `err = conn.Handshake(); if err != nil { return nil, err }`
  abbrev pub shaken : Secured N → Option Bytes → Outcome (Secured N)
  shaken s (some err) = failed err
  shaken s none = ok s

  unfoldable pub tls_handshake : Network N → Secured N → Calls (List N) (Secured N)
  tls_handshake net s = pure_call (shaken s (net.shake_hands s.0 s.1))

-- `parses_ip` stands for `net.ParseIP(s) != nil` and `to_lower` for `strings.ToLower`.
module _ {N : Type 0} (parses_ip : Bytes → Bool) (to_lower : Bytes → Bytes) (net : Network N) where
  unfoldable pub tls_dial_conn : Options → Calls (List N) (Secured N)
  unfolding tcp_dial_conn build_client_tls_config new_client_tls_conn tls_handshake
  tls_dial_conn o = do
    n ← tcp_dial_conn net o
    tls_handshake net
        (n, new_client_tls_conn to_lower (build_client_tls_config parses_ip o) o.fingerprint)

-- `http2.NextProtoTLS`
abbrev pub next_proto_tls : Bytes
next_proto_tls = codes "h2"

abbrev pub unexpected_protocol : Bytes → Bytes
unexpected_protocol p =
    codes "http2: unexpected ALPN protocol " ++ p ++ codes "; want " ++ next_proto_tls

-- `p := cn.NegotiatedProtocol()` and what follows.
unfoldable pub expect_h2 : {N : Type 0} → Network N → Secured N → Calls (List N) (Secured N)
unfolding equal
expect_h2 net s =
    let p = net.negotiated s.0 s.1 in
    pure_call (if equal p next_proto_tls then ok s else failed (unexpected_protocol p))

-- x/net/http2 calls this with the configuration that it makes of the transporter's.
unfoldable pub h2_dial_tls :
    {N : Type 0} → (Bytes → Bytes) → Network N → Options → TlsConfig → Calls (List N) (Secured N)
unfolding tcp_dial_conn new_client_tls_conn tls_handshake expect_h2
h2_dial_tls to_lower net o config = do
  n ← tcp_dial_conn net o
  s ← tls_handshake net (n, new_client_tls_conn to_lower config o.fingerprint)
  expect_h2 net s
