-- ===== src/Modes.antt =====
-- The registries as the `init` functions fill them, and how the two ends of a mode speak.
pub mod Arrive
pub mod Live
pub mod Method
pub mod Agree
pub mod Ends
pub mod Compose
pub mod Pair
pub mod Processes
use gost_plugin.Args.Addr.{Options}
use gost_plugin.Client.Transporters.{
  Transporter, new_gun_transporter, new_h2_transporter, new_mtls_transporter, new_mws_transporter,
  new_mwss_transporter, new_quic_transporter, new_tcp_transporter, new_tls_transporter,
  new_ws_transporter, new_wss_transporter,
}
use gost_plugin.Common.{Bool, Bytes, List, Option, [], codes, ◌∷◌}
use gost_plugin.Foreign.{Calls}
use gost_plugin.Handler.Ends.{Makers}
use gost_plugin.Proxy.Sockets.{Host}
use gost_plugin.Registry.{Creators, register}
use gost_plugin.Server.Listeners.{
  Listener, new_gun_listener, new_h2_listener, new_mtls_listener, new_mws_listener,
  new_mwss_listener, new_quic_listener, new_tcp_listener, new_tls_listener, new_ws_listener,
  new_wss_listener,
}
use gost_plugin.Client.Transporters as Client
use gost_plugin.Server.Listeners as Server

-- `registry.Register…` for each pair, in order.
abbrev pub register_each : {A : Type 0} → Creators A → List (Bytes × A) → Creators A
register_each m [] = m
register_each m ((name, a) ∷ rows) = register_each (register m name a) rows

module _ {L K : Type 0} (host : Host L K) where
  abbrev pub CreateListener : Type 0
  CreateListener = Options → Calls (List L) (Listener L K)

  -- The `init` functions of gost/proxy and gost/proxy/server, in the order of the files.
  abbrev pub listener_rows : List (Bytes × CreateListener)
  listener_rows =
      (codes "tcp", new_tcp_listener host)
      ∷ (codes "grpc", new_gun_listener host)
      ∷ (codes "gun", new_gun_listener host)
      ∷ (codes "h2", new_h2_listener host)
      ∷ (codes "mtls", new_mtls_listener host)
      ∷ (codes "mws", new_mws_listener host)
      ∷ (codes "mwss", new_mwss_listener host)
      ∷ (codes "quic", new_quic_listener host)
      ∷ (codes "tls", new_tls_listener host)
      ∷ (codes "ws", new_ws_listener host)
      ∷ (codes "wss", new_wss_listener host)
      ∷ []

module _ {W : Type 0} (parses_ip : Bytes → Bool) (grpc_dial : Bytes → Option Bytes) where
  -- Those of gost/proxy and gost/proxy/client.
  abbrev pub transporter_rows : List (Bytes × (Options → Calls W Transporter))
  transporter_rows =
      (codes "tcp", new_tcp_transporter parses_ip grpc_dial)
      ∷ (codes "grpc", new_gun_transporter parses_ip grpc_dial)
      ∷ (codes "gun", new_gun_transporter parses_ip grpc_dial)
      ∷ (codes "h2", new_h2_transporter parses_ip grpc_dial)
      ∷ (codes "mtls", new_mtls_transporter parses_ip grpc_dial)
      ∷ (codes "mws", new_mws_transporter parses_ip grpc_dial)
      ∷ (codes "mwss", new_mwss_transporter parses_ip grpc_dial)
      ∷ (codes "quic", new_quic_transporter parses_ip grpc_dial)
      ∷ (codes "tls", new_tls_transporter parses_ip grpc_dial)
      ∷ (codes "ws", new_ws_transporter parses_ip grpc_dial)
      ∷ (codes "wss", new_wss_transporter parses_ip grpc_dial)
      ∷ []

-- A creator is given the options with its context.
abbrev pub given : {A B : Type 0} → A → List (Bytes × (A → B)) → List (Bytes × B)
given a [] = []
given a ((name, f) ∷ rows) = (name, f a) ∷ given a rows

-- What `newHandler` uses, for the options of one process; the state is the sockets opened so far.
unfoldable pub makers :
    {L K : Type 0}
    → Host L K
    → (Bytes → Bool)
    → (Bytes → Option Bytes)
    → Options
    → Makers (List L) (Listener L K) Transporter
unfolding register new_tcp_listener new_tcp_transporter
makers host parses_ip grpc_dial o = record {
  listeners = register_each [] (given o (listener_rows host));
  transporters = register_each [] (given o (transporter_rows parses_ip grpc_dial));
  new_tcp_listener = new_tcp_listener host o;
  new_tcp_transporter = new_tcp_transporter parses_ip grpc_dial o;
}
