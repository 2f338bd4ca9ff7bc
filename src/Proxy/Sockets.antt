-- ===== src/Proxy/Sockets.antt =====
-- `Listen` and `TCPTransporter.DialConn` of gost/proxy/tcp.go, and `ListenPacket` of gost/proxy/udp.go:
-- what the sockets are opened with.
use gost_plugin.Args.Addr.{Options, get_remote_addr}
use gost_plugin.Common.{Bool, Bytes, List, Option, [], codes, none, some, true, ℕ, ◌++◌, ◌∷◌}
use gost_plugin.Foreign.{Calls, Outcome, failed, ok}

-- Which controllers of the registry a socket goes through.
pub data Control : Type 0 where
  listen_control : Control
  dial_control : Control

pub record Binding : Type 0 where
  pub network : Bytes
  pub address : Bytes
  pub control : Control

-- A `net.Addr`: the nil interface, or a pointer to an address, which may be nil, by its text.
pub data NetAddr : Type 0 where
  no_addr : NetAddr
  pointer : Option Bytes → NetAddr

-- `String()` of a pointer
abbrev pub addr_text : Option Bytes → Bytes
addr_text none = codes "<nil>"
addr_text (some a) = a

unfoldable pub tcp_binding : NetAddr → Binding
tcp_binding no_addr = record {
  network = codes "tcp";
  address = codes "0.0.0.0:0";
  control = listen_control;
}
tcp_binding (pointer p) = record {
  network = codes "tcp";
  address = addr_text p;
  control = listen_control;
}

unfoldable pub udp_binding : NetAddr → Binding
udp_binding no_addr = record {
  network = codes "udp";
  address = codes "0.0.0.0:0";
  control = listen_control;
}
udp_binding (pointer p) = record {
  network = codes "udp";
  address = addr_text p;
  control = listen_control;
}

-- The `net.Dialer` with the arguments of its `Dial`.
pub record DialSetup : Type 0 where
  pub target : Binding
  pub timeout_seconds : ℕ

unfoldable pub dial_setup : Options → DialSetup
unfolding get_remote_addr
dial_setup o = record {
  target = record { network = codes "tcp"; address = get_remote_addr o; control = dial_control };
  timeout_seconds = 16;
}

-- The foreign calls of the constructors of listeners: `resolve` is net.ResolveTCPAddr and
-- net.ResolveUDPAddr, `listen` opens a socket, `load` is tls.LoadX509KeyPair, and `listen_quic` is the
-- error of quic.Listen on a socket.
pub record Host (L K : Type 0) : Type 0 where
  pub resolve : Bytes → Option Bytes
  pub listen : Binding → Outcome L
  pub load : Bytes → Bytes → Outcome K
  pub listen_quic : L → Option Bytes

module _ {L : Type 0} where
  abbrev listened : List L → Outcome L → List L × Outcome L
  listened opened (ok l) = (opened ++ l ∷ [], ok l)
  listened opened (failed err) = (opened, failed err)

  -- A socket is opened; the state is the sockets opened so far, oldest first.
  unfoldable pub open_socket : {K : Type 0} → Host L K → Binding → Calls (List L) L
  open_socket host b opened = listened opened (host.listen b)

-- `Accept` of tcpKeepAliveListener; the errors of the two settings are dropped.
pub record KeepAlive (N : Type 0) : Type 0 where
  pub conn : N
  pub keep_alive : Bool
  pub period_seconds : ℕ

unfoldable pub keep_alive_accept : {N : Type 0} → Outcome N → Outcome (KeepAlive N)
keep_alive_accept (failed err) = failed err
keep_alive_accept (ok n) = ok (record { conn = n; keep_alive = true; period_seconds = 180 })
