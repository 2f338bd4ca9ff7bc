-- ===== src/Modes/Pair.antt =====
-- The listener and the transporter that `newHandler` makes for one mode.
use gost_plugin.Args.Addr.{Options}
use gost_plugin.Client.Transporters.{Transporter}
use gost_plugin.Common.{Bool, Bytes, List, Option, ap, equal, false, refl, sym, true, ◌∙◌, ◌≡◌}
use gost_plugin.Foreign.{ok}
use gost_plugin.Handler.Ends.{Built, new_handler, new_handler-Built, on_client, on_server}
use gost_plugin.Modes.{given, listener_rows, makers, transporter_rows}
use gost_plugin.Modes.Agree.{Speaks, end_of}
use gost_plugin.Modes.Compose.{Rows-Chosen, Match}
use gost_plugin.Modes.Compose.Each.{listener_rows-Rows}
use gost_plugin.Proxy.Sockets.{Host}
use gost_plugin.Registry.{get_creator, register}
use gost_plugin.Server.Listeners.{Listener}
use gost_plugin.Web.{Documented, Web}

module _ {L K M J : Type 0} (web : Web) (documented : Documented web) (host : Host L K)
    (other_host : Host M J) (parses_ip : Bytes → Bool) (grpc_dial : Bytes → Option Bytes) where
  listeners-given :
      (o : Options) → (makers host parses_ip grpc_dial o).listeners ≡ given o (listener_rows host)
  unfolding makers register equal
  listeners-given o = refl

  transporters-given :
      (p : Options)
      → (makers other_host parses_ip grpc_dial p).transporters
        ≡ given p (transporter_rows parses_ip grpc_dial)
  unfolding makers register equal
  transporters-given p = refl

  speaks :
      (o p : Options) (w w2 : List L) (v v2 : List M) (l : Listener L K) (t0 t : Transporter)
      (l0 : Listener M J)
      → o.server ≡ true
      → p.server ≡ false
      → o.mode ≡ p.mode
      → Match web o p
      → Built (makers host parses_ip grpc_dial o) o w w2 l t0
      → Built (makers other_host parses_ip grpc_dial p) p v v2 l0 t
      → Speaks web parses_ip (end_of l) t
  speaks o p w w2 v v2 l t0 t l0 s c mode same (on_server {create} {w1} s' found made rest)
        (on_client {create = dial} {w1 = v1} c' found2 made2 rest2) =
      let (a, b, agree, ea, eb) =
        Rows-Chosen web host parses_ip grpc_dial (listener_rows host)
          (transporter_rows parses_ip grpc_dial) o p p.mode create dial
          (listener_rows-Rows {M = M} web documented host parses_ip grpc_dial)
          (ap (λ m. get_creator m p.mode) (sym (listeners-given o))
            ∙ ap (λ x. get_creator (makers host parses_ip grpc_dial o).listeners x) (sym mode)
            ∙ found)
          (ap (λ m. get_creator m p.mode) (sym (transporters-given p)) ∙ found2) in
      agree o p w w1 v v1 l t same (ap (λ f. f w) ea ∙ made) (ap (λ f. f v) eb ∙ made2)
  speaks o p w w2 v v2 l t0 t l0 s c mode same (on_client s' found made rest) built2 = absurd (cc)
  speaks o p w w2 v v2 l t0 t l0 s c mode same (on_server s' found made rest)
        (on_server c' f2 m2 r2) =
      absurd (cc)

  -- A server and a client that were started with the same mode, path and service name, with a plain path
  -- and an address that can stand in a URL, and whose ends `newHandler` made: the listener of the one
  -- and the transporter of the other put the same
  -- protocols on top of each other, and where the server's TLS knows protocols by name the client
  -- offers just these; and what the transporter dials is offered to the channel of the listener.
  pub same_mode-Speaks :
      (o p : Options) (w w2 : List L) (v v2 : List M) (l : Listener L K) (t0 t : Transporter)
      (l0 : Listener M J)
      → o.server ≡ true
      → p.server ≡ false
      → o.mode ≡ p.mode
      → Match web o p
      → new_handler (makers host parses_ip grpc_dial o) o w ≡ (w2, ok (l, t0))
      → new_handler (makers other_host parses_ip grpc_dial p) p v ≡ (v2, ok (l0, t))
      → Speaks web parses_ip (end_of l) t
  same_mode-Speaks o p w w2 v v2 l t0 t l0 s c mode same h k =
      speaks o p w w2 v v2 l t0 t l0 s c mode same
        (new_handler-Built (makers host parses_ip grpc_dial o) o w w2 l t0 h)
        (new_handler-Built (makers other_host parses_ip grpc_dial p) p v v2 l0 t k)
