-- ===== src/Server/Certificate.antt =====
-- `buildServerTLSConfig` of gost/proxy/server/tls.go.
use gost_plugin.Args.Addr.{Options}
use gost_plugin.Common.{Bytes, List, [], arith, codes, equal, if◌then◌else◌, ◌||◌, ◌∷◌, ◌≡◌}
use gost_plugin.Foreign.{Outcome, failed, ok}

-- The certificates of a `tls.Config`, and its `NextProtos`, which some listeners set behind it.
pub record ServerConfig (K : Type 0) : Type 0 where
  pub certificates : List K
  pub next_protos : List Bytes

abbrev no_cert : Bytes
no_cert = codes "No TLS cert specified"

abbrev loaded : {K : Type 0} → Outcome K → Outcome (ServerConfig K)
loaded (ok cert) = ok (record { certificates = cert ∷ []; next_protos = [] })
loaded (failed err) = failed err

-- `load` is `tls.LoadX509KeyPair`, which reads two files.
unfoldable pub build_server_tls_config :
    {K : Type 0} → (Bytes → Bytes → Outcome K) → Options → Outcome (ServerConfig K)
unfolding equal
build_server_tls_config load o =
    if equal o.cert [] || equal o.key [] then failed no_cert else loaded (load o.cert o.key)

-- The configuration knows no protocols until a listener sets them.
pub build_server_tls_config-next_protos :
    {K : Type 0} (load : Bytes → Bytes → Outcome K) (o : Options) (config : ServerConfig K)
    → build_server_tls_config load o ≡ ok config
    → config.next_protos ≡ []
unfolding build_server_tls_config
build_server_tls_config-next_protos load o config h = ground arith
