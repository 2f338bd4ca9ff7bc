-- ===== src/Client/Multiplexed.antt =====
-- `DialConn` of gost/proxy/client/mtls.go and mws.go: the pool over the `DialConn` of the transporter
-- that each embeds.
pub mod Laws
use gost_plugin.Args.Addr.{Options}
use gost_plugin.Client.Dial.{Network, Secured, tls_dial_conn}
use gost_plugin.Client.Ws.{
  ClientConn, Handshake, delayed, dial_conn, dial_failed, dialed_now, handshake, opened, ws_url,
}
use gost_plugin.Common.{Bool, Bytes, List, Option, if◌then◌else◌, ltb, none, ℕ}
use gost_plugin.Foreign.{Calls, Outcome, failed, ok}
use gost_plugin.Mux.Pool.{dial_mux}
use gost_plugin.Mux.Smux.{Smux}
use gost_plugin.Mux.System.{MuxPool}

-- The outside world of a transporter: the TCP connections opened and not closed, and the rest.
pub record MuxWorld (N V : Type 0) : Type 0 where
  pub opened : List N
  pub rest : V

-- A dial of TCP or TLS, in that world.
abbrev pub in_world : {N V A : Type 0} → Calls (List N) A → Calls (MuxWorld N V) A
in_world m w = let r = m w.opened in (record { opened = r.0; rest = w.rest }, r.1)

-- `t.pool.DialMux(…)` with the random id of a new session and the time.
abbrev pub pool_dial :
    {W C N T : Type 0}
    → Smux W C N T
    → (W → W × Outcome N)
    → MuxPool W C N
    → ℕ
    → ℕ
    → MuxPool W C N × Outcome T
pool_dial S new_conn q id now =
    let r = dial_mux S q.concurrency q.pool id now new_conn in (record q { pool = r.0 }, r.1)

-- `DialConn` of MTLSTransporter.
unfoldable pub mtls_dial_conn :
    {N V C T : Type 0}
    → (Bytes → Bool)
    → (Bytes → Bytes)
    → Network N
    → Smux (MuxWorld N V) C (Secured N) T
    → Options
    → MuxPool (MuxWorld N V) C (Secured N)
    → ℕ
    → ℕ
    → MuxPool (MuxWorld N V) C (Secured N) × Outcome T
unfolding dial_mux tls_dial_conn
mtls_dial_conn parses_ip to_lower net S o q id now =
    pool_dial S (in_world (tls_dial_conn parses_ip to_lower net o)) q id now

abbrev pub client_outcome : ClientConn → Outcome ClientConn
client_outcome (dial_failed err) = failed err
client_outcome (dialed_now w) = ok (dialed_now w)
client_outcome (delayed d) = ok (delayed d)

-- `DialConn` of WSTransporter and WSSTransporter: `dial` is `Dial` of gorilla/websocket, by its error,
-- which a connection that waits with dialling does not call.
unfoldable pub ws_dial_conn :
    {W : Type 0} → (Handshake → W → W × Option Bytes) → Options → Calls W ClientConn
unfolding dial_conn handshake ws_url
ws_dial_conn dial o w =
    let r = dial (handshake o (ws_url o) none) w in
    if ltb 0 o.ed
    then (w, client_outcome (dial_conn o none))
    else (r.0, client_outcome (dial_conn o r.1))

-- `DialConn` of MWSTransporter.
unfoldable pub mws_dial_conn :
    {W C T : Type 0}
    → (Handshake → W → W × Option Bytes)
    → Smux W C ClientConn T
    → Options
    → MuxPool W C ClientConn
    → ℕ
    → ℕ
    → MuxPool W C ClientConn × Outcome T
unfolding dial_mux ws_dial_conn
mws_dial_conn dial S o q id now = pool_dial S (ws_dial_conn dial o) q id now

-- `DialConn` of MWSSTransporter, whose `dial` is over TLS.
unfoldable pub mwss_dial_conn :
    {W C T : Type 0}
    → (Handshake → W → W × Option Bytes)
    → Smux W C ClientConn T
    → Options
    → MuxPool W C ClientConn
    → ℕ
    → ℕ
    → MuxPool W C ClientConn × Outcome T
unfolding dial_mux ws_dial_conn
mwss_dial_conn dial S o q id now = pool_dial S (ws_dial_conn dial o) q id now
