-- ===== src/Client/Tls.antt =====
-- gost/proxy/client/tls.go and grpc_tls.go: the TLS configuration, the choice of a fingerprint, and
-- the handshake of package utls with its ALPN extension.
pub mod Laws
use gost_plugin.Args.Addr.{Options}
use gost_plugin.Common.{
  Bool, Bytes, List, Option, [], codes, equal, if◌then◌else◌, none, not, some, true, ℕ, ◌∷◌,
}
use gost_plugin.Foreign.{Outcome, failed, ok}

-- The fields of `tls.Config` that the program sets.
pub record TlsConfig : Type 0 where
  pub next_protos : List Bytes
  pub insecure_skip_verify : Bool
  pub session_tickets_disabled : Bool
  pub server_name : Bytes

-- `parses_ip s` stands for `net.ParseIP(s) != nil`.
unfoldable pub build_client_tls_config : (Bytes → Bool) → Options → TlsConfig
unfolding equal
build_client_tls_config parses_ip o = record {
  next_protos = codes "http/1.1" ∷ [];
  insecure_skip_verify = o.insecure;
  session_tickets_disabled = true;
  server_name =
      if not (equal o.server_name [])
      then o.server_name
      else if parses_ip o.remote_addr
      then []
      else o.remote_addr;
}

-- The names of `utls.ClientHelloID` that the program uses.
pub data HelloId : Type 0 where
  chrome_auto : HelloId
  ios_auto : HelloId
  firefox_auto : HelloId
  edge_auto : HelloId
  safari_auto : HelloId
  browser360_auto : HelloId
  qq_auto : HelloId

abbrev pub fingerprints : List (Bytes × HelloId)
fingerprints =
    (codes "chrome", chrome_auto)
    ∷ (codes "ios", ios_auto)
    ∷ (codes "firefox", firefox_auto)
    ∷ (codes "edge", edge_auto)
    ∷ (codes "safari", safari_auto)
    ∷ (codes "360browser", browser360_auto)
    ∷ (codes "qqbrowser", qq_auto)
    ∷ []

-- The `switch`, whose default is Chrome.
unfoldable pub hello_of : List (Bytes × HelloId) → Bytes → HelloId
unfolding equal
hello_of [] s = chrome_auto
hello_of ((name, id) ∷ names) s = if equal s name then id else hello_of names s

-- What `newClientTLSConn` makes: a connection of crypto/tls, or one of utls with its fingerprint.
pub data TlsConn : Type 0 where
  go_tls : TlsConfig → TlsConn
  utls : HelloId → TlsConfig → TlsConn

-- `to_lower` stands for `strings.ToLower`.
unfoldable pub new_client_tls_conn : (Bytes → Bytes) → TlsConfig → Bytes → TlsConn
unfolding equal hello_of
new_client_tls_conn to_lower config fingerprint =
    if equal fingerprint []
    then go_tls config
    else utls (hello_of fingerprints (to_lower fingerprint)) config

-- An extension of the client hello.
pub data Extension : Type 0 where
  alpn : List Bytes → Extension
  other : ℕ → Extension

-- What `Handshake` of utlsConnWrapper makes of the extensions between the two calls of
-- `BuildHandshakeState`: the first ALPN extension gets the protocols, or one is put at the end.
unfoldable pub with_alpn : List Bytes → List Extension → List Extension
with_alpn protos [] = alpn protos ∷ []
with_alpn protos (alpn old ∷ es) = alpn protos ∷ es
with_alpn protos (other n ∷ es) = other n ∷ with_alpn protos es

-- `Handshake` of utlsConnWrapper, by its error: what the first `BuildHandshakeState` gives, and the
-- errors of the second one and of the handshake, on the extensions that they find.
unfoldable pub utls_handshake :
    List Bytes
    → Outcome (List Extension)
    → (List Extension → Option Bytes)
    → (List Extension → Option Bytes)
    → Option Bytes
unfolding with_alpn
utls_handshake protos (failed err) rebuild shake = some err
utls_handshake protos (ok es) rebuild shake = elim (rebuild (with_alpn protos es)) [
  | some err ↦ some err
  | none ↦ shake (with_alpn protos es)
]

-- `ClientHandshake` of grpcTLS: the clone whose server name it fills in, and the connection. The host
-- of the authority is `none` if `net.SplitHostPort` fails.
unfoldable pub authority_name : Bytes → Option Bytes → Bytes
authority_name authority none = authority
authority_name authority (some host) = host

unfoldable pub client_handshake :
    (Bytes → Bytes) → TlsConfig → Bytes → Bytes → Option Bytes → TlsConfig × TlsConn
unfolding equal authority_name new_client_tls_conn
client_handshake to_lower config fingerprint authority host = (
  if equal config.server_name []
      then record config { server_name = authority_name authority host }
      else config,
  new_client_tls_conn to_lower config fingerprint,
)

-- `grpcTLS`; a clone of a configuration is the same fields in another object, so here the value.
pub record GrpcTls : Type 0 where
  pub config : TlsConfig
  pub fingerprint : Bytes

unfoldable pub new_grpc_tls : TlsConfig → Bytes → GrpcTls
new_grpc_tls config fingerprint = record { config = config; fingerprint = fingerprint }

unfoldable pub grpc_clone : GrpcTls → GrpcTls
unfolding new_grpc_tls
grpc_clone t = new_grpc_tls t.config t.fingerprint

-- `OverrideServerName`, whose error is nil.
unfoldable pub override_server_name : GrpcTls → Bytes → GrpcTls
override_server_name t name = record t { config = record t.config { server_name = name } }

pub record ProtocolInfo : Type 0 where
  pub security_protocol : Bytes
  pub security_version : Bytes
  pub server_name : Bytes

unfoldable pub grpc_info : GrpcTls → ProtocolInfo
grpc_info t = record {
  security_protocol = codes "tls";
  security_version = codes "1.2";
  server_name = t.config.server_name;
}

-- How `ClientHandshake` ends: with a connection, or with an error and the connection closed, as
-- either the handshake or the context comes first.
pub data HandshakeEnd : Type 0 where
  finished : Option Bytes → HandshakeEnd
  context_done : Bytes → HandshakeEnd

pub data Handshaken : Type 0 where
  connected : Handshaken
  closed_with : Bytes → Handshaken

unfoldable pub handshaken : HandshakeEnd → Handshaken
handshaken (finished none) = connected
handshaken (finished (some err)) = closed_with err
handshaken (context_done err) = closed_with err

-- The configuration that `DialConn` of gost/proxy/client/quic.go dials with.
unfoldable pub quic_config : (Bytes → Bool) → Options → TlsConfig
unfolding build_client_tls_config
quic_config parses_ip o = record (build_client_tls_config parses_ip o) {
  next_protos = codes "h3" ∷ [];
}
