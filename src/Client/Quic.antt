-- ===== src/Client/Quic.antt =====
-- `QUICTransporter` of gost/proxy/client/quic.go. Package quic is foreign code, taken as operations on
-- a state `W` of the outside world; the mutex makes a call of `DialConn` one step.
pub mod Laws
pub mod Packets
use gost_plugin.Args.Addr.{Options, get_remote_addr}
use gost_plugin.Client.Tls.{TlsConfig, quic_config}
use gost_plugin.Common.{Bool, Bytes, Option, codes, false, if◌then◌else◌, none, not, some}
use gost_plugin.Foreign.{Outcome, failed, ok}
use gost_plugin.Protocol.Address.{Address}
use gost_plugin.Protocol.Quic.{InterConn, new_quic_conn}
use gost_plugin.Proxy.Sockets.{Binding, no_addr, udp_binding}

-- Sessions `S`, streams `T` and packet connections `P`. `resolve` is net.ResolveUDPAddr, whose error
-- the program drops.
pub record Quic (W S T P : Type 0) : Type 0 where
  pub is_done : W → S → Bool
  pub open_stream : W → S → W × Outcome T
  pub close_session : W → S → W
  pub session_local : S → Address
  pub session_remote : S → Address
  pub resolve : Bytes → Option Bytes
  pub listen_packet : Binding → W → W × Outcome P
  pub dial : P → Option Bytes → TlsConfig → W → W × Outcome S

pub record Transporter (W S : Type 0) : Type 0 where
  pub session : Option S
  pub world : W

module _ {W S T P : Type 0} (Q : Quic W S T P) where
  unfoldable pub is_session_active : W → Option S → Bool
  is_session_active w none = false
  is_session_active w (some s) = not (Q.is_done w s)

  -- `Q.NewQUICConn(stream, t.session.LocalAddr(), t.session.RemoteAddr())`
  abbrev pub stream_conn : S → Outcome T → Outcome (InterConn T)
  stream_conn s (ok t) = ok (new_quic_conn t (Q.session_local s) (Q.session_remote s))
  stream_conn s (failed err) = failed err

  abbrev pub with_stream : S → W × Outcome T → Transporter W S × Outcome (InterConn T)
  with_stream s (w, r) = (record { session = some s; world = w }, stream_conn s r)

  abbrev pub session_closed : Bytes
  session_closed = codes "session closed"

  unfoldable pub open_stream : W → Option S → Transporter W S × Outcome (InterConn T)
  unfolding is_session_active new_quic_conn
  open_stream w none = (record { session = none; world = w }, failed session_closed)
  open_stream w (some s) =
      let opened = with_stream s (Q.open_stream w s) in
      if Q.is_done w s
      then (record { session = some s; world = w }, failed session_closed)
      else opened

  -- `if t.session != nil { t.session.CloseWithError(0, "") }`
  abbrev pub close_old : W → Option S → W
  close_old w none = w
  close_old w (some s) = Q.close_session w s

  -- Behind `quic.Dial`.
  abbrev pub dialed : Option S → W × Outcome S → Transporter W S × Outcome (InterConn T)
  dialed old (w, failed err) = (record { session = old; world = w }, failed err)
  dialed old (w, ok s) = open_stream w (some s)

  -- Behind `ListenPacket`.
  abbrev pub listened :
      TlsConfig → Option Bytes → Option S → W × Outcome P → Transporter W S × Outcome (InterConn T)
  listened config addr old (w, failed err) = (record { session = old; world = w }, failed err)
  listened config addr old (w, ok p) = dialed old (Q.dial p addr config w)

  -- `parses_ip` stands for `net.ParseIP(s) != nil`.
  unfoldable pub dial_conn :
      (Bytes → Bool) → Options → Transporter W S → Transporter W S × Outcome (InterConn T)
  unfolding is_session_active open_stream quic_config get_remote_addr udp_binding
  dial_conn parses_ip o t =
      let redialed =
        listened (quic_config parses_ip o) (Q.resolve (get_remote_addr o)) t.session
          (Q.listen_packet (udp_binding no_addr) (close_old t.world t.session)) in
      if is_session_active t.world t.session then open_stream t.world t.session else redialed
