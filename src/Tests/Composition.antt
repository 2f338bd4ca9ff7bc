-- ===== src/Tests/Composition.antt =====
-- The two ends together at concrete inputs.
use gost_plugin.Args.Addr.{Options}
use gost_plugin.Client.Dial.{Network, h2_dial_tls, next_proto_tls, tls_dial_conn}
use gost_plugin.Client.Dial.Laws.{Ends, dial-Ends}
use gost_plugin.Client.Gun.{StreamDesc, gun_dial_conn}
use gost_plugin.Client.H2.{h2_conn, h2_dial_conn, h2_request}
use gost_plugin.Client.H2.Laws.{exchange, h2_dial_conn-serve_http}
use gost_plugin.Client.Tls.{TlsConfig, build_client_tls_config, new_client_tls_conn}
use gost_plugin.Client.Ws.{Delayed, Wire}
use gost_plugin.Common.{
  All, Bool, Bytes, List, Option, [], arith, codes, concat, equal, false, length, none, refl, some,
  true, ℕ, ◌++◌, ◌∷◌, ◌≡◌, ◌≢◌, ◌≤◌,
}
use gost_plugin.Foreign.{Calls, failed, ok}
use gost_plugin.Handler.System.{
  Reachable, System, accepts, arrives, here, moves, relays_on, started, starts, steps,
}
use gost_plugin.Handler.System.Laws.{relayed}
use gost_plugin.Handler.System.Progress.{EndsClosed, Reachable-Accounted}
use gost_plugin.Handler.System.Returning.{Reachable-WaitsFor, WaitsFor}
use gost_plugin.Handler.System.Settling.{Moves, Reachable-Settles, Settled, measure}
use gost_plugin.Hook.{VpnCalls, VpnState, control_on_conn_setup}
use gost_plugin.Hook.Laws.{Guards, control_on_conn_setup-Guards}
use gost_plugin.Main.{flag_defaults}
use gost_plugin.Modes.Method.{gun_dial_conn-serve_grpc, serve_calls}
use gost_plugin.Protocol.Address.{Address, peer}
use gost_plugin.Protocol.Gun.{new_gun_connection}
use gost_plugin.Protocol.Http.{new_http_connection}
use gost_plugin.Proxy.Queue.{accept_conn, capacity, empty, offer}
use gost_plugin.Proxy.Queue.Laws.{Interleaves}
use gost_plugin.Proxy.Sockets.{Host}
use gost_plugin.Server.Certificate.{build_server_tls_config}
use gost_plugin.Server.Listeners.{new_quic_listener}
use gost_plugin.Server.Listeners.Errors.{LeavesOpen, cert_error-LeavesOpen, on_tcp}
use gost_plugin.Server.Upgrade.{accepted, tun_waited, upgrade, waited}
use gost_plugin.Server.Upgrade.Laws.{request_of}
use gost_plugin.Tests.Net.{simple_web, simple_web-Documented}
use gost_plugin.Tunnel.{early_of, read_all, write_all-read_all}
use gost_plugin.Web.{is_plain}
use gost_plugin.Handler.Relay as Relaying
use gost_plugin.Protocol.Gun as Gun
use gost_plugin.Protocol.Http as Http
use gost_plugin.Client.Ws.Laws as Delay
use gost_plugin.Server.Upgrade as Upgrade

-- The first buffer is longer than the early data that the options allow.
write_all-read_all_example :
    (d : Delayed) × (w : Wire) × (Delay.write_all
        (Delay.fresh flag_defaults (codes "ws://10.0.0.1:80/") 2)
        (codes "abc" ∷ codes "de" ∷ [])
      ≡ some d)
    × (d.conn ≡ some w)
    × (Upgrade.upgrade {N = ℕ} (codes "/") empty (request_of w.opened_by (codes "/")) (ok 7)
        ≡ (offer empty (7, early_of w), Upgrade.accepted))
    × (read_all 3 (early_of w) w.messages ≡ (concat (codes "abc" ∷ codes "de" ∷ []), none))
write_all-read_all_example =
    write_all-read_all flag_defaults (codes "ws://10.0.0.1:80/") (codes "/") 2 3 (codes "abc")
      (codes "de" ∷ []) empty 7 (omega arith, (omega arith, (omega arith, tt))) (omega arith)

-- Sockets and certificates are numbers, and nothing fails.
abbrev host : Host ℕ ℕ
host = record {
  resolve = λ a. some a;
  listen = λ b. ok 5;
  load = λ cert key. ok 8;
  listen_quic = λ l. none;
}

abbrev no_ip : Bytes → Bool
no_ip s = false

abbrev dials : Bytes → Option Bytes
dials target = none

abbrev client_options : Options
client_options = record flag_defaults { mode = codes "h2"; path = codes "/tunnel" }

abbrev server_options : Options
server_options = record client_options {
  server = true;
  cert = codes "cert.pem";
  key = codes "key.pem";
}

-- Sockets are numbers; the handshake fails.
abbrev network : Network ℕ
network = record {
  dial = λ setup. ok 3;
  shake_hands = λ n c. some (codes "bad certificate");
  negotiated = λ n c. codes "h2";
}

abbrev as_is : Bytes → Bytes
as_is s = s

abbrev plain_config : TlsConfig
plain_config = build_client_tls_config no_ip flag_defaults

dial-Ends_example :
    Ends network flag_defaults
      (new_client_tls_conn as_is
        (build_client_tls_config no_ip flag_defaults)
        flag_defaults.fingerprint)
      (λ p. true)
      (1 ∷ [])
      (tls_dial_conn no_ip as_is network flag_defaults (1 ∷ []))
    × Ends network flag_defaults
        (new_client_tls_conn as_is plain_config flag_defaults.fingerprint)
        (λ p. equal p next_proto_tls)
        (1 ∷ [])
        (h2_dial_tls as_is network flag_defaults plain_config (1 ∷ []))
dial-Ends_example = dial-Ends network flag_defaults no_ip as_is plain_config (1 ∷ [])

abbrev vpn_calls : VpnCalls ℕ
vpn_calls = record { socket = ok 6; connect = λ s. none; read = λ s. ok 1 }

abbrev vpn_state : VpnState ℕ
vpn_state = record { opened = []; closed = []; sent = []; log = [] }

control_on_conn_setup-Guards_example :
    Guards vpn_calls 9 vpn_state (control_on_conn_setup vpn_calls 9 true vpn_state)
control_on_conn_setup-Guards_example = control_on_conn_setup-Guards vpn_calls 9 vpn_state refl

abbrev no_cert_options : Options
no_cert_options = record server_options { cert = [] }

no_cert_fails :
    build_server_tls_config host.load no_cert_options ≡ failed (codes "No TLS cert specified")
unfolding build_server_tls_config equal
no_cert_fails = refl

cert_error-LeavesOpen_example :
    All (LeavesOpen host no_cert_options 5 (codes "No TLS cert specified")) (on_tcp host)
    × ((w : List ℕ)
        → new_quic_listener host no_cert_options w ≡ (w, failed (codes "No TLS cert specified")))
cert_error-LeavesOpen_example =
    cert_error-LeavesOpen host no_cert_options 5 (codes "No TLS cert specified") refl no_cert_fails

-- One connection has come, and waits.
abbrev one_arrived : System ℕ
one_arrived = record started { arrived = 4 ∷ []; queue = offer empty 4 }

one_arrived-Reachable : Reachable one_arrived
one_arrived-Reachable = steps starts (arrives started 4)

Reachable-Accounted_example :
    (length one_arrived.queue.waiting ≤ capacity)
    × Interleaves
        (relayed one_arrived.relays ++ one_arrived.queue.waiting)
        one_arrived.queue.closed
        one_arrived.arrived
    × EndsClosed one_arrived.relays
Reachable-Accounted_example = Reachable-Accounted one_arrived one_arrived-Reachable

Reachable-Settles_example :
    ((n : ℕ) (t : System ℕ) → Moves n one_arrived t → n ≤ measure one_arrived)
    × ((n : ℕ) × (t : System ℕ) × Moves n one_arrived t × Settled t)
Reachable-Settles_example = Reachable-Settles one_arrived one_arrived-Reachable refl

-- Behind the goroutine of the connection, whose dial fails.
abbrev one_over : System ℕ
one_over = record {
  arrived = 4 ∷ [];
  queue = accept_conn one_arrived.queue;
  accepting = true;
  relays = (4, record Relaying.accepted { phase = Relaying.over; closed_inbound = 1 }) ∷ [];
}

one_over-Reachable : Reachable one_over
unfolding offer accept_conn
one_over-Reachable =
    steps (steps one_arrived-Reachable (moves (accepts one_arrived 4 [] refl refl)))
      (moves (relays_on _ _ (here (Relaying.dial_fails Relaying.accepted refl))))

-- The dial failed, so the connection was closed, and its request is answered.
Reachable-WaitsFor_example :
    WaitsFor Http.close waited (new_http_connection none none) one_over 4
    × WaitsFor Gun.close tun_waited (new_gun_connection none none) one_over 4
unfolding offer accept_conn
Reachable-WaitsFor_example = Reachable-WaitsFor one_over 4 none none one_over-Reachable refl

abbrev gun_peer : Option Address
gun_peer = some (peer (codes "10.0.0.1:443"))

root_plain : is_plain (codes "/") ≡ true
unfolding is_plain
root_plain = refl

-- A stream that works at once.
abbrev opens_stream : StreamDesc → Bytes → Calls (List Bytes) (Option Address)
opens_stream d m ms = (m ∷ ms, ok gun_peer)

gun_dial_conn-serve_grpc_example :
    let name = flag_defaults.service_name in
    let r = gun_dial_conn opens_stream flag_defaults [] in
    (r.1 ≡ ok (new_gun_connection gun_peer none))
    × (flag_defaults.service_name ≡ name
        → serve_calls simple_web name empty r.0 ≡ offer empty (0, []))
    × (flag_defaults.service_name ≢ name → serve_calls simple_web name empty r.0 ≡ empty)
gun_dial_conn-serve_grpc_example =
    gun_dial_conn-serve_grpc simple_web flag_defaults.service_name flag_defaults opens_stream
      gun_peer [] empty (λ d m ms. refl)

h2_dial_conn-serve_http_example :
    ((codes "/" ≡ codes "/")
      → (h2_dial_conn
            (λ r. (exchange {N = ℕ} simple_web (codes "/") empty 7 [] r).1)
            flag_defaults
            0
          ≡ (1, ok h2_conn))
        × ((exchange {N = ℕ} simple_web (codes "/") empty 7 [] (h2_request flag_defaults)).0
            ≡ offer empty 7))
    × (¬ (codes "/" ≡ codes "/")
        → (h2_dial_conn
              (λ r. (exchange {N = ℕ} simple_web (codes "/") empty 7 [] r).1)
              flag_defaults
              0
            ≡ (1, failed (codes "unexpected status 404")))
          × ((exchange {N = ℕ} simple_web (codes "/") empty 7 [] (h2_request flag_defaults)).0
              ≡ empty))
h2_dial_conn-serve_http_example =
    h2_dial_conn-serve_http {N = ℕ} simple_web (codes "/") empty 7 [] flag_defaults 0
      simple_web-Documented root_plain root_plain
