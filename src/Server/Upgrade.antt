-- ===== src/Server/Upgrade.antt =====
-- The HTTP handlers of the listeners: `Upgrade` of gost/proxy/server/ws.go and mws.go, `serveHTTP` of
-- h2.go, and `Tun` of gun.go. What the upgrader returns is foreign, and an input.
pub mod Laws
use gost_plugin.Common.{Bool, Bytes, List, [], equal, false, if◌then◌else◌, true, ◌++◌, ◌∷◌}
use gost_plugin.Foreign.{Outcome, done, failed, ok}
use gost_plugin.Protocol.Base64.{Decoded, decode}
use gost_plugin.Protocol.Gun.{GunConn}
use gost_plugin.Protocol.Http.{HttpConn}
use gost_plugin.Proxy.Queue.{Queue, offer}

-- `r.URL.Path`, and the header "Sec-WebSocket-Protocol", empty if it is missing.
pub record Request : Type 0 where
  pub path : Bytes
  pub protocol : Bytes

pub data Response : Type 0 where
  not_found : Response
  not_upgraded : Response
  bad_payload : Response
  accepted : Response

-- The early payload: what `DecodeString` returns beside its error, and whether there is one.
unfoldable pub early_payload : Bytes → Decoded
unfolding decode
early_payload [] = ([], false)
early_payload (c ∷ s) = decode (c ∷ s)

-- What the connections that `Upgrade` of MWSListener has upgraded became.
pub record Multiplexed (N : Type 0) : Type 0 where
  pub served : List (N × Bytes)
  pub left_open : List N

module _ {N : Type 0} where
  -- Behind `l.upgrader.Upgrade`. A payload that does not decode is logged, and the connection gets
  -- the bytes before the error.
  abbrev pub upgraded : Queue (N × Bytes) → Bytes → Outcome N → Queue (N × Bytes) × Response
  upgraded q protocol (failed err) = (q, not_upgraded)
  upgraded q protocol (ok n) = (offer q (n, (early_payload protocol).0), accepted)

  -- `Upgrade` of WSListener: the queue of connections, each with its early payload.
  unfoldable pub upgrade :
      Bytes → Queue (N × Bytes) → Request → Outcome N → Queue (N × Bytes) × Response
  unfolding equal offer early_payload
  upgrade path q r o = if equal r.path path then upgraded q r.protocol o else (q, not_found)

  abbrev pub multiplexed : Multiplexed N → N → Decoded → Multiplexed N × Response
  multiplexed m n (ed, true) = (record m { left_open = m.left_open ++ n ∷ [] }, bad_payload)
  multiplexed m n (ed, false) = (record m { served = m.served ++ (n, ed) ∷ [] }, accepted)

  abbrev pub mux_upgraded : Multiplexed N → Bytes → Outcome N → Multiplexed N × Response
  mux_upgraded m protocol (failed err) = (m, not_upgraded)
  mux_upgraded m protocol (ok n) = multiplexed m n (early_payload protocol)

  -- `Upgrade` of MWSListener: the connections for which it has started `ServeMux`, and those on which
  -- it returned without closing them.
  unfoldable pub mux_upgrade :
      Bytes → Multiplexed N → Request → Outcome N → Multiplexed N × Response
  unfolding equal early_payload
  mux_upgrade path m r o = if equal r.path path then mux_upgraded m r.protocol o else (m, not_found)

-- `serveHTTP` of H2Listener, up to its wait for the connection's end: the connection stands for the
-- body and the writer of the request.
unfoldable pub serve_http : {N : Type 0} → Bytes → Queue N → Request → N → Queue N × Response
unfolding equal offer
serve_http path q r conn = if equal r.path path then (offer q conn, accepted) else (q, not_found)

-- `Tun` of GunListener, up to the same wait.
unfoldable pub tun : {N : Type 0} → Queue N → N → Queue N
unfolding offer
tun q conn = offer q conn

-- Whether `<-conn.Done()`, the wait of `serveHTTP` for its connection, has ended; and that of `Tun`.
unfoldable pub waited : HttpConn → Bool
waited conn = conn.done

unfoldable pub tun_waited : GunConn → Bool
tun_waited conn = conn.done
