-- ===== src/Server/Upgrade/Laws.antt =====
-- The early payload from the client's handshake to the server's queue.
use gost_plugin.Args.Addr.{Options}
use gost_plugin.Client.Ws.{Handshake, early_header, handshake}
use gost_plugin.Common.{
  All, Bytes, Option, [], ap, equal_refl, false, if◌then◌else◌, none, refl, some, ◌++◌, ◌∙◌, ◌∷◌,
  ◌≡◌,
}
use gost_plugin.Foreign.{Outcome, ok}
use gost_plugin.Protocol.Base64.{decode, decode_quanta, encode, strip}
use gost_plugin.Protocol.Base64.Laws.{IsByte, decode-encode}
use gost_plugin.Proxy.Queue.{Queue, offer}
use gost_plugin.Server.Upgrade.{
  Multiplexed, Request, accepted, early_payload, multiplexed, mux_upgrade, mux_upgraded, not_found,
  upgrade, upgraded,
}

abbrev pub header : Option Bytes → Bytes
header none = []
header (some s) = s

abbrev pub payload : Option Bytes → Bytes
payload none = []
payload (some ed) = ed

-- The request that a handshake of the client makes of the server.
abbrev pub request_of : Handshake → Bytes → Request
request_of h path = record { path = path; protocol = header h.protocol }

pub early_payload-decode : (s : Bytes) → early_payload s ≡ decode s
unfolding early_payload decode strip decode_quanta
early_payload-decode [] = refl
early_payload-decode (c ∷ s) = refl

early_payload-header :
    (ed : Option Bytes)
    → All IsByte (payload ed)
    → early_payload (header (early_header ed)) ≡ (payload ed, false)
unfolding early_payload
early_payload-header none h = refl
early_payload-header (some ed) h = early_payload-decode (encode ed) ∙ decode-encode ed h

pub upgrade-same :
    {N : Type 0} (path s : Bytes) (q : Queue (N × Bytes)) (r : Outcome N)
    → upgrade path q (record { path = path; protocol = s }) r ≡ upgraded q s r
unfolding upgrade
upgrade-same path s q r = ap (λ b. if b then upgraded q s r else (q, not_found)) (equal_refl path)

mux_upgrade-same :
    {N : Type 0} (path s : Bytes) (m : Multiplexed N) (r : Outcome N)
    → mux_upgrade path m (record { path = path; protocol = s }) r ≡ mux_upgraded m s r
unfolding mux_upgrade
mux_upgrade-same path s m r =
    ap (λ b. if b then mux_upgraded m s r else (m, not_found)) (equal_refl path)

-- The early data that the client puts into its handshake is what the server's connection starts
-- with: upgrading the request sends the connection with exactly these bytes to the channel, with
-- none for a handshake without early data.
pub upgrade-handshake :
    {N : Type 0} (path : Bytes) (q : Queue (N × Bytes)) (o : Options) (url : Bytes)
    (ed : Option Bytes) (n : N)
    → All IsByte (payload ed)
    → upgrade path q (request_of (handshake o url ed) path) (ok n)
      ≡ (offer q (n, payload ed), accepted)
unfolding handshake
upgrade-handshake path q o url ed n h =
    upgrade-same path _ q (ok n)
    ∙ ap (λ e. (offer q (n, e.0), accepted)) (early_payload-header ed h)

-- The multiplexing listener starts to serve such a connection with the same bytes, and leaves none
-- open behind it.
pub mux_upgrade-handshake :
    {N : Type 0} (path : Bytes) (m : Multiplexed N) (o : Options) (url : Bytes) (ed : Option Bytes)
    (n : N)
    → All IsByte (payload ed)
    → mux_upgrade path m (request_of (handshake o url ed) path) (ok n)
      ≡ (record m { served = m.served ++ (n, payload ed) ∷ [] }, accepted)
unfolding handshake
mux_upgrade-handshake path m o url ed n h =
    mux_upgrade-same path _ m (ok n) ∙ ap (λ e. multiplexed m n e) (early_payload-header ed h)
