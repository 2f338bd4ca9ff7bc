-- ===== src/Tests/Connections.antt =====
-- The connections and transporters at concrete inputs.
use gost_plugin.Client.Quic.{Quic, dial_conn, is_session_active, open_stream}
use gost_plugin.Client.Quic.Laws.{OpenedOn, dial_conn-OpenedOn}
use gost_plugin.Client.Quic.Packets.{Counts, dial_often, dial_often_lem, redials}
use gost_plugin.Client.Tls.{TlsConfig, authority_name, build_client_tls_config, client_handshake}
use gost_plugin.Client.Tls.Laws.{client_handshake-server_name, config_of}
use gost_plugin.Client.Ws.{Delayed, Wire, fails, read, reads, waits, write}
use gost_plugin.Client.Ws.Early.{header_size, max_header_bytes, write_all-header_size}
use gost_plugin.Client.Ws.Waiting.{Dials, any_close, read-run}
use gost_plugin.Common.{
  Bytes, List, [], arith, codes, equal, false, if◌then◌else◌, none, not, refl, some, suc, true, ℕ,
  ◌*◌, ◌+◌, ◌/◌, ◌==◌, ◌∷◌, ◌≡◌, ◌≤◌,
}
use gost_plugin.Foreign.{ok}
use gost_plugin.Main.{flag_defaults}
use gost_plugin.Protocol.Address.{peer, zero_tcp}
use gost_plugin.Protocol.Base64.{digit, encode}
use gost_plugin.Protocol.Quic.{InterConn, new_quic_conn}
use gost_plugin.Client.Ws.Laws as Delay

abbrev url : Bytes
url = codes "wss://127.0.0.1:1080/"

abbrev first_dial : List Delay.Op
first_dial = Delay.writes none none (codes "ab") ∷ Delay.closes ∷ []

read-run_example :
    (Dials first_dial
      → read (Delay.run (Delay.fresh flag_defaults url 2) first_dial)
        ≡ (if any_close first_dial then fails else reads))
    × (¬ Dials first_dial → read (Delay.run (Delay.fresh flag_defaults url 2) first_dial) ≡ waits)
read-run_example = read-run flag_defaults url 2 first_dial

abbrev config : TlsConfig
config = build_client_tls_config (λ s. true) flag_defaults

config-unnamed : config.server_name ≡ []
unfolding build_client_tls_config equal
config-unnamed = refl

client_handshake-server_name_example :
    let r = client_handshake (λ s. s) config (codes "chrome") (codes "a:443") (some (codes "a")) in
    (r.0.server_name ≡ codes "a") × ((config_of r.1).server_name ≡ [])
unfolding authority_name
client_handshake-server_name_example =
    client_handshake-server_name (λ s. s) config (codes "chrome") (codes "a:443") (some (codes "a"))
      config-unnamed

-- Sessions are numbers, and the world is the number of the last one, which is also that of the packet
-- connections; older sessions are done.
abbrev quic : Quic ℕ ℕ ℕ (Unit {0})
quic = record {
  is_done = λ w s. not (w == s);
  open_stream = λ w s. (w, ok s);
  close_session = λ w s. w;
  session_local = λ s. zero_tcp;
  session_remote = λ s. peer (codes "10.0.0.1:443");
  resolve = λ s. some s;
  listen_packet = λ b w. (suc w, ok tt);
  dial = λ p addr config w. (w, ok w);
}

abbrev quic_stream : InterConn ℕ
quic_stream = record { stream = 3; local = zero_tcp; remote = peer (codes "10.0.0.1:443") }

redialed :
    dial_conn quic (λ s. true) flag_defaults (record { session = some 1; world = 2 })
    ≡ (record { session = some 3; world = 3 }, ok quic_stream)
unfolding dial_conn is_session_active open_stream new_quic_conn
redialed = refl

dial_conn-OpenedOn_example : OpenedOn quic (record { session = some 3; world = 3 }) quic_stream
dial_conn-OpenedOn_example =
    dial_conn-OpenedOn quic (λ s. true) flag_defaults (record { session = some 1; world = 2 })
      (record { session = some 3; world = 3 }) quic_stream redialed

-- The session that is dialled by the first call serves the second.
quic-Counts : Counts quic (λ w. w)
quic-Counts = record {
  listens = λ b w. (suc w, tt, refl, omega arith);
  dial-packets = λ p addr config w. refl;
  open_stream-packets = λ w s. refl;
  close_session-packets = λ w s. refl;
}

dial_often_lem_example :
    (dial_often quic
      (λ s. true)
      flag_defaults
      (record { session = none; world = 2 })
      ((λ w. w) ∷ (λ w. w) ∷ [])).world
    ≡ 2
      + redials quic
          (λ s. true)
          flag_defaults
          (record { session = none; world = 2 })
          ((λ w. w) ∷ (λ w. w) ∷ [])
dial_often_lem_example =
    dial_often_lem quic (λ w. w) quic-Counts (λ s. true) flag_defaults
      (record { session = none; world = 2 }) ((λ w. w) ∷ (λ w. w) ∷ [])
      ((λ w. refl), ((λ w. refl), tt))

abbrev early_wire : Wire
early_wire = record {
  opened_by = record {
    url = url;
    compression = true;
    tls_by_transporter = true;
    user_agent = codes "Chrome/78.0.3904.106";
    host = none;
    protocol = some (codes "YWI=");
  };
  messages = [];
  closed = false;
}

abbrev early_conn : Delayed
early_conn = record {
  options = flag_defaults;
  url = url;
  conn = some early_wire;
  ed = 2;
  dialed = true;
  closed = false;
}

early_written :
    Delay.write_all (Delay.fresh flag_defaults url 2) (codes "ab" ∷ []) ≡ some early_conn
unfolding Delay.write_all write encode digit
early_written = refl

write_all-header_size_example :
    (header_size (some (codes "YWI=")) ≤ (2 + 2) / 3 * 4)
    × (2 ≤ 1536 → header_size (some (codes "YWI=")) ≤ max_header_bytes)
write_all-header_size_example =
    write_all-header_size flag_defaults url 2 (codes "ab") [] early_conn early_wire
      (omega arith, (omega arith, tt)) early_written refl
