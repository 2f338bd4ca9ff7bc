-- ===== src/Tests/Processes.antt =====
-- Whole processes at concrete inputs, and the pool over a short life.
use gost_plugin.Args.Addr.{Options, first_is, fix_addr, get_remote_addr, host_port, last_is}
use gost_plugin.Args.Apply.{apply_args, apply_local, apply_remote, apply_rest, flag, number, text}
use gost_plugin.Args.Env.{Env, parse_env}
use gost_plugin.Args.Map.{lookup}
use gost_plugin.Args.Number.{format_uint, print_digits}
use gost_plugin.Common.{
  Bool, Bytes, List, Option, [], codes, contains, equal, false, has_prefix, none, refl, some, true,
  ℕ, ◌∷◌, ◌≡◌, ◌≤◌,
}
use gost_plugin.Handler.Ends.{Built}
use gost_plugin.Log.Laws.{message_lem}
use gost_plugin.Main.{flag_defaults, start}
use gost_plugin.Main.Run.{Living, main_run, stopped}
use gost_plugin.Main.Run.Laws.{main_run-Built}
use gost_plugin.Modes.{makers}
use gost_plugin.Modes.Agree.{Speaks, end_of}
use gost_plugin.Modes.Compose.{Match}
use gost_plugin.Modes.Processes.{main_run-Speaks}
use gost_plugin.Proxy.Sockets.{Host}
use gost_plugin.Server.Listeners.{Listener, http2, new_h2_listener, raw}
use gost_plugin.Tests.Net.{no_slash, simple_web, simple_web-Documented}
use gost_plugin.Web.{is_plain, is_plain_rest}
use Prim.Native.String.{String}
use gost_plugin.Log as Log
use gost_plugin.Client.Transporters as Client
use gost_plugin.Foreign as Calling

abbrev host : Host ℕ ℕ
host = record {
  resolve = λ a. some a;
  listen = λ b. Calling.ok 5;
  load = λ cert key. Calling.ok 8;
  listen_quic = λ l. none;
}

abbrev no_ip : Bytes → Bool
no_ip s = false

abbrev dials_well : Bytes → Option Bytes
dials_well target = none

-- `Close` takes the socket away, and has an error; the others leave the sockets as they are.
abbrev lives : Living (List ℕ) (Listener ℕ ℕ) Client.Transporter
lives = record {
  serve = λ ends w. w;
  until_signal = λ w. w;
  cancel = λ w. w;
  close = λ l w. ([], some (codes "closed twice"));
}

abbrev env_of : String → Env
env_of options = record {
  ss_remote_host = codes "192.0.2.1";
  ss_remote_port = codes "443";
  ss_local_host = codes "127.0.0.1";
  ss_local_port = codes "1080";
  ss_plugin_options = codes options;
}

abbrev server_env : Env
server_env = env_of "server;mode=h2;path=/t;cert=c.pem;key=k.pem"

abbrev client_env : Env
client_env = env_of "mode=h2;path=/t"

abbrev server_options : Options
server_options = (start server_env flag_defaults).options

abbrev h2_listener : Listener ℕ ℕ
h2_listener = record {
  socket = 5;
  tls = some (record { certificates = 8 ∷ []; next_protos = codes "h2" ∷ [] });
  serving = http2 (codes "/t");
}

server_serves :
    (main_run server_env false flag_defaults (makers host no_ip dials_well) lives []).ending
    ≡ stopped h2_listener (Client.tcp server_options) (some (codes "closed twice"))
unfolding main_run parse_env apply_args number lookup equal apply_local apply_remote apply_rest flag
    makers text new_h2_listener
server_serves = refl

abbrev client_options : Options
client_options = (start client_env flag_defaults).options

abbrev h2_transporter : Client.Transporter
h2_transporter =
    Client.http2 (Client.tcp client_options) client_options (Client.h2_config no_ip client_options)

abbrev tcp_listener : Listener ℕ ℕ
tcp_listener = record { socket = 5; tls = none; serving = raw }

client_serves :
    (main_run client_env false flag_defaults (makers host no_ip dials_well) lives []).ending
    ≡ stopped tcp_listener h2_transporter (some (codes "closed twice"))
unfolding main_run parse_env apply_args number lookup equal apply_local apply_remote apply_rest flag
    makers text Client.new_h2_transporter
client_serves = refl

same_names :
    (server_options.server ≡ true)
    × (client_options.server ≡ false)
    × (server_options.mode ≡ client_options.mode)
    × Match simple_web server_options client_options
unfolding start parse_env apply_args number lookup equal apply_local apply_remote apply_rest flag
    text is_plain is_plain_rest no_slash get_remote_addr host_port fix_addr contains has_prefix
    first_is last_is format_uint print_digits
same_names =
    (refl, refl, refl, record { path = refl; service_name = refl; plain = refl; addressed = refl })

main_run-Speaks_example : Speaks simple_web no_ip (end_of h2_listener) h2_transporter
main_run-Speaks_example =
    main_run-Speaks simple_web simple_web-Documented host host no_ip dials_well lives lives
      server_env client_env flag_defaults flag_defaults [] [] h2_listener tcp_listener
      h2_transporter (Client.tcp server_options) (some (codes "closed twice"))
      (some (codes "closed twice")) server_serves client_serves same_names.0 same_names.1
      same_names.2 same_names.3

main_run-Built_example :
    let p = main_run server_env false flag_defaults (makers host no_ip dials_well) lives [] in
    ((start server_env flag_defaults).error ≡ none)
    × ((w1 : List ℕ) × Built
          (makers host no_ip dials_well server_options)
          server_options
          []
          w1
          h2_listener
          (Client.tcp server_options)
        × (lives.close h2_listener w1 ≡ (p.world, some (codes "closed twice"))))
    × ((level : ℕ) × (p.level ≡ some level)
        × (level ≤ 6)
        × ((other : Env) → level ≡ (start other flag_defaults).level))
main_run-Built_example =
    main_run-Built (makers host no_ip dials_well) lives server_env flag_defaults [] h2_listener
      (Client.tcp server_options) (some (codes "closed twice")) server_serves

-- Two verbs and two arguments.
abbrev two_verbs : List Log.Piece
two_verbs = Log.literal (codes "a ") ∷ Log.verb ∷ Log.literal (codes " b ") ∷ Log.verb ∷ []

abbrev two_values : List Bytes
two_values = codes "x" ∷ codes "y" ∷ []

abbrev two_logged : Bytes
two_logged = codes "a [x y] b %!s(MISSING)"

message_lem_example :
    (Log.message (Log.infof two_verbs two_values) ≡ two_logged)
    × (Log.message (Log.warnf two_verbs two_values) ≡ two_logged)
    × (Log.message (Log.errorf two_verbs two_values) ≡ two_logged)
    × (Log.message (Log.debugf two_verbs two_values) ≡ two_logged)
    × (Log.message (Log.fatalf two_verbs two_values) ≡ two_logged)
    × (Log.message (Log.infoln two_values) ≡ codes "[x y]")
    × (Log.message (Log.warnln two_values) ≡ codes "[x y]")
    × (Log.message (Log.errorln two_values) ≡ codes "[x y]")
    × (Log.message (Log.debugln two_values) ≡ codes "[x y]")
    × (Log.message (Log.fatalln two_values) ≡ codes "[x y]")
message_lem_example = message_lem two_verbs two_values
