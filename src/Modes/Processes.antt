-- ===== src/Modes/Processes.antt =====
-- Two whole processes, a server and a client.
use gost_plugin.Args.Addr.{Options}
use gost_plugin.Args.Env.{Env}
use gost_plugin.Client.Transporters.{Transporter}
use gost_plugin.Common.{Bool, Bytes, List, Option, false, true, ◌≡◌}
use gost_plugin.Main.{start}
use gost_plugin.Main.Run.{Living, Process, main_run, stopped}
use gost_plugin.Main.Run.Laws.{run-Served}
use gost_plugin.Modes.{makers}
use gost_plugin.Modes.Agree.{Speaks, end_of}
use gost_plugin.Modes.Compose.{Match}
use gost_plugin.Modes.Pair.{same_mode-Speaks}
use gost_plugin.Proxy.Sockets.{Host}
use gost_plugin.Server.Listeners.{Listener}
use gost_plugin.Web.{Documented, Web}

module _ {L K M J : Type 0} (web : Web) (documented : Documented web) (host : Host L K)
    (other_host : Host M J) (parses_ip : Bytes → Bool) (grpc_dial : Bytes → Option Bytes) where
  -- A process on this host, or on the other.
  abbrev pub here :
      Living (List L) (Listener L K) Transporter
      → Env
      → Options
      → List L
      → Process (List L) (Listener L K) Transporter
  here living env flags w = main_run env false flags (makers host parses_ip grpc_dial) living w

  abbrev pub there :
      Living (List M) (Listener M J) Transporter
      → Env
      → Options
      → List M
      → Process (List M) (Listener M J) Transporter
  there living env flags v =
      main_run env false flags (makers other_host parses_ip grpc_dial) living v

  -- Two processes that stopped at a signal, a server here and a client there, whose options, after
  -- flags and environment, name the same mode, path and service; the path is plain, and the address that
  -- the client dials can stand in a URL. The listener of the one and the transporter of the other put
  -- the same protocols on top of each other, and where the server's TLS knows protocols by name the
  -- client offers just these. A connection that the transporter dials, if net/url and net/http do as
  -- documented and nothing else between the ends fails, is offered to the channel of the listener with
  -- its early data, which for a multiplexed one goes to the session below.
  pub main_run-Speaks :
      (living : Living (List L) (Listener L K) Transporter)
      (other_living : Living (List M) (Listener M J) Transporter) (env other_env : Env)
      (flags other_flags : Options) (w : List L) (v : List M) (l : Listener L K) (l0 : Listener M J)
      (t t0 : Transporter) (error other_error : Option Bytes)
      → (here living env flags w).ending ≡ stopped l t0 error
      → (there other_living other_env other_flags v).ending ≡ stopped l0 t other_error
      → (start env flags).options.server ≡ true
      → (start other_env other_flags).options.server ≡ false
      → (start env flags).options.mode ≡ (start other_env other_flags).options.mode
      → Match web (start env flags).options (start other_env other_flags).options
      → Speaks web parses_ip (end_of l) t
  main_run-Speaks living other_living env other_env flags other_flags w v l l0 t t0 error
        other_error serves dials is_server is_client mode names =
      let (applied, a) =
        run-Served (makers host parses_ip grpc_dial) living env false flags w l t0 error serves in
      let (other_applied, b) =
        run-Served (makers other_host parses_ip grpc_dial) other_living other_env false other_flags
          v l0 t other_error dials in
      same_mode-Speaks web documented host other_host parses_ip grpc_dial (start env flags).options
        (start other_env other_flags).options w a.before v b.before l t0 t l0 is_server is_client
        mode names a.made b.made
