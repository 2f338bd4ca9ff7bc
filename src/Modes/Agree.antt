-- ===== src/Modes/Agree.antt =====
-- The two ends of a mode speak the same protocols.
use gost_plugin.Client.Tls.{build_client_tls_config, quic_config}
use gost_plugin.Client.Transporters.{
  Transporter, grpc, http2, multiplexed, quic, tcp, tls, websocket,
}
use gost_plugin.Common.{Bool, Bytes, List, Option, [], none, some, ◌++◌, ◌∷◌, ◌≡◌, ◌⊎◌}
use gost_plugin.Modes.Arrive.{Reaches, options_of}
use gost_plugin.Server.Certificate.{ServerConfig}
use gost_plugin.Server.Listeners.{Listener, Serving, raw}
use gost_plugin.Web.{Web}
use gost_plugin.Client.Transporters as Client
use gost_plugin.Server.Listeners as Server

-- What carries the bytes of a connection, from the network up.
pub data Layer : Type 0 where
  tcp_layer : Layer
  tls_layer : Layer
  quic_layer : Layer
  websocket_layer : Bytes → Layer
  http2_layer : Bytes → Layer
  grpc_layer : Bytes → Layer
  smux_layer : Layer

abbrev serving_layers : Serving → List Layer
serving_layers Server.raw = []
serving_layers (Server.websocket path compression) = websocket_layer path ∷ []
serving_layers (Server.http2 path) = http2_layer path ∷ []
serving_layers (Server.grpc name) = grpc_layer name ∷ []
serving_layers Server.quic = []
serving_layers (Server.multiplexed s) = serving_layers s ++ smux_layer ∷ []

-- The protocols of the TLS below, if there is one. QUIC is a layer of its own, with TLS inside.
abbrev network_layers : Serving → Option (List Bytes) → List Layer
network_layers Server.quic protos = quic_layer ∷ []
network_layers s none = tcp_layer ∷ []
network_layers s (some protos) = tcp_layer ∷ tls_layer ∷ []

-- What of a listener decides how its connections speak.
abbrev pub End : Type 0
End = Serving × Option (List Bytes)

abbrev protos_of : {K : Type 0} → Option (ServerConfig K) → Option (List Bytes)
protos_of none = none
protos_of (some config) = some config.next_protos

abbrev pub end_of : {L K : Type 0} → Listener L K → End
end_of l = (l.serving, protos_of l.tls)

abbrev pub end_layers : End → List Layer
end_layers (s, protos) = network_layers s protos ++ serving_layers s

-- The protocols that the server's TLS knows.
abbrev pub end_protos : End → List Bytes
end_protos (s, none) = []
end_protos (s, some protos) = protos

abbrev pub transporter_layers : Transporter → List Layer
transporter_layers (Client.tcp o) = tcp_layer ∷ []
transporter_layers (Client.tls t) = transporter_layers t ++ tls_layer ∷ []
transporter_layers (Client.websocket t) =
    transporter_layers t ++ websocket_layer (options_of t).path ∷ []
transporter_layers (Client.multiplexed t n) = transporter_layers t ++ smux_layer ∷ []
transporter_layers (Client.http2 t o config) =
    transporter_layers t ++ tls_layer ∷ http2_layer o.path ∷ []
transporter_layers (Client.grpc t o config) =
    transporter_layers t ++ tls_layer ∷ grpc_layer o.service_name ∷ []
transporter_layers (Client.quic o) = quic_layer ∷ []

module _ (web : Web) (parses_ip : Bytes → Bool) where
  -- The protocols that the client's TLS offers.
  abbrev pub client_protos : Transporter → List Bytes
  client_protos (Client.tcp o) = []
  client_protos (Client.tls t) = (build_client_tls_config parses_ip (options_of t)).next_protos
  client_protos (Client.websocket t) = client_protos t
  client_protos (Client.multiplexed t n) = client_protos t
  client_protos (Client.http2 t o config) = config.next_protos
  client_protos (Client.grpc t o config) = config.next_protos
  client_protos (Client.quic o) = (quic_config parses_ip o).next_protos

  -- The same layers, a server that knows protocols knows just the ones that the client offers, and what
  -- the client dials is sent to the channel of the server.
  abbrev pub Speaks : End → Transporter → Type 0
  Speaks e t =
      (end_layers e ≡ transporter_layers t)
      × ((end_protos e ≡ []) ⊎ (end_protos e ≡ client_protos t))
      × Reaches web e.0 t
