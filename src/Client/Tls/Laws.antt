-- ===== src/Client/Tls/Laws.antt =====
-- The server's name, the fingerprint and the ALPN extension.
use gost_plugin.Args.Addr.{Options}
use gost_plugin.Client.Tls.{
  Extension, GrpcTls, TlsConfig, TlsConn, alpn, authority_name, build_client_tls_config,
  client_handshake, go_tls, grpc_clone, grpc_info, new_client_tls_conn, new_grpc_tls, other,
  override_server_name, utls, utls_handshake, with_alpn,
}
use gost_plugin.Common.{
  Bool, Bytes, List, Option, [], ap, arith, equal_iff, false, none, refl, some, true, ◌↔◌, ◌∙◌, ◌∷◌,
  ◌≡◌, ◌≢◌, ◌⊎◌,
}
use gost_plugin.Foreign.{Outcome, failed, ok}

-- The configuration names no server only where none is given and the remote address is an IP
-- address or empty; the name is the given one, or else the remote address.
pub server_name_iff :
    (parses_ip : Bytes → Bool) (o : Options) (name : Bytes)
    → ((build_client_tls_config parses_ip o).server_name ≡ name) ↔ (
        ((o.server_name ≢ []) × (o.server_name ≡ name))
        ⊎ ((o.server_name ≡ []) × (parses_ip o.remote_addr ≡ true) × (name ≡ []))
        ⊎ ((o.server_name ≡ []) × (parses_ip o.remote_addr ≡ false) × (o.remote_addr ≡ name)))
unfolding build_client_tls_config
server_name_iff parses_ip o name = ground (arith, equal_iff o.server_name [])

-- The protocols of the first ALPN extension.
abbrev pub offered_protocols : List Extension → Option (List Bytes)
offered_protocols [] = none
offered_protocols (alpn ps ∷ es) = some ps
offered_protocols (other n ∷ es) = offered_protocols es

abbrev pub without_alpn : List Extension → List Extension
without_alpn [] = []
without_alpn (alpn ps ∷ es) = without_alpn es
without_alpn (other n ∷ es) = other n ∷ without_alpn es

-- Whatever extensions a fingerprint has, the hello offers the configured protocols, and its other
-- extensions stay as they are, in their order.
pub with_alpn_lem :
    (protos : List Bytes) (es : List Extension)
    → (offered_protocols (with_alpn protos es) ≡ some protos)
      × (without_alpn (with_alpn protos es) ≡ without_alpn es)
unfolding with_alpn
with_alpn_lem protos [] = (refl, refl)
with_alpn_lem protos (alpn old ∷ es) = (refl, refl)
with_alpn_lem protos (other n ∷ es) =
    ((with_alpn_lem protos es).0, ap (◌∷◌ (other n)) (with_alpn_lem protos es).1)

-- The configuration that a connection was made with.
abbrev pub config_of : TlsConn → TlsConfig
config_of (go_tls config) = config
config_of (utls id config) = config

pub new_client_tls_conn-config :
    (to_lower : Bytes → Bytes) (config : TlsConfig) (fingerprint : Bytes)
    → config_of (new_client_tls_conn to_lower config fingerprint) ≡ config
unfolding new_client_tls_conn
new_client_tls_conn-config to_lower config fingerprint = ground (arith)

-- Where the configuration names no server, `ClientHandshake` takes the name from the authority, but
-- only into its clone: the connection that it makes has no server name.
pub client_handshake-server_name :
    (to_lower : Bytes → Bytes) (config : TlsConfig) (fingerprint authority : Bytes)
    (host : Option Bytes)
    → config.server_name ≡ []
    → let r = client_handshake to_lower config fingerprint authority host in
      (r.0.server_name ≡ authority_name authority host) × ((config_of r.1).server_name ≡ [])
unfolding client_handshake
client_handshake-server_name to_lower config fingerprint authority host e = (
  ground (arith, equal_iff config.server_name []),
  ap (λ c. c.server_name) (new_client_tls_conn-config to_lower config fingerprint) ∙ e,
)

-- A server name that overrides that of a clone is the one that the connections of the clone are made
-- with, whatever the authority, and the one of its information.
pub override_server_name-client_handshake :
    (to_lower : Bytes → Bytes) (t : GrpcTls) (name authority : Bytes) (host : Option Bytes)
    → let u = override_server_name (grpc_clone t) name in
      ((config_of (client_handshake to_lower u.config u.fingerprint authority host).1).server_name
        ≡ name)
      × ((grpc_info u).server_name ≡ name)
unfolding client_handshake override_server_name grpc_clone grpc_info new_grpc_tls
override_server_name-client_handshake to_lower t name authority host = (
  ap (λ c. c.server_name)
      (new_client_tls_conn-config to_lower (record t.config { server_name = name }) t.fingerprint),
  refl,
)

-- A handshake of utls that succeeds was made with a hello that offers the configured protocols, and
-- has the other extensions of the fingerprint in their order.
pub utls_handshake-offers :
    (protos : List Bytes) (first : Outcome (List Extension))
    (rebuild shake : List Extension → Option Bytes)
    → utls_handshake protos first rebuild shake ≡ none
    → (es hello : List Extension) × (first ≡ ok es)
      × (shake hello ≡ none)
      × (offered_protocols hello ≡ some protos)
      × (without_alpn hello ≡ without_alpn es)
unfolding utls_handshake
utls_handshake-offers protos (failed err) rebuild shake h = absurd (cc)
utls_handshake-offers protos (ok es) rebuild shake h = (
  es,
  with_alpn protos es,
  refl,
  rebuilt (rebuild (with_alpn protos es)) h,
  (with_alpn_lem protos es).0,
  (with_alpn_lem protos es).1,
)
  where
    rebuilt :
        (r : Option Bytes)
        → (elim r [ some err ↦ some err | none ↦ shake (with_alpn protos es) ]) ≡ none
        → shake (with_alpn protos es) ≡ none
    rebuilt none k = k
    rebuilt (some err) k = absurd (cc)
