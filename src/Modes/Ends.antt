-- ===== src/Modes/Ends.antt =====
-- What each constructor of a listener makes, when it succeeds.
use gost_plugin.Args.Addr.{Options, get_local_addr}
use gost_plugin.Common.{Bytes, List, Option, [], ap, codes, none, not, refl, some, ◌∙◌, ◌∷◌, ◌≡◌}
use gost_plugin.Foreign.{Calls, Outcome, and_then-ok, done, ok, pure_call, ◌>>=◌}
use gost_plugin.Modes.Agree.{End, end_of}
use gost_plugin.Proxy.Sockets.{Binding, Host, open_socket, pointer, udp_binding}
use gost_plugin.Server.Certificate.{ServerConfig, build_server_tls_config-next_protos}
use gost_plugin.Server.Listeners.{
  Listener, Serving, grpc, http2, multiplexed, new_gun_listener, new_h2_listener, new_mtls_listener,
  new_mws_listener, new_mwss_listener, new_quic_listener, new_tcp_listener, new_tls_listener,
  new_ws_listener, new_wss_listener, quic, quic_listener, raw, server_config, websocket,
}
use gost_plugin.Server.Listeners as Server

module _ {L K : Type 0} where
  -- Each success of a constructor gives this end.
  abbrev pub Makes : Calls (List L) (Listener L K) → End → Type 0
  Makes m e = (w w' : List L) (l : Listener L K) → m w ≡ (w', ok l) → end_of l ≡ e

  ok-eq :
      (w w' : List L) (l k : Listener L K)
      → ◌≡◌ {A = List L × Outcome (Listener L K)} (w, ok l) (w', ok k)
      → k ≡ l
  ok-eq w w' l k h = cc

  -- A listener that is changed behind its constructor.
  mapped-Makes :
      (m : Calls (List L) (Listener L K)) (g : Listener L K → Listener L K) (F : End → End)
      (e : End)
      → Makes m e
      → ((l : Listener L K) → end_of (g l) ≡ F (end_of l))
      → Makes (do l ← m; done (g l)) (F e)
  mapped-Makes m g F e made same w w' l h =
      let (w1, l1, h1, h2) = and_then-ok (m w) _ w' l h in
      ap end_of (ok-eq w1 w' (g l1) l h2) ∙ same l1 ∙ ap F (made w w1 l1 h1)

module _ {L K : Type 0} (host : Host L K) (o : Options) where
  -- The same with a certificate.
  configured-Makes :
      (m : Calls (List L) (Listener L K)) (g : Listener L K → ServerConfig K → Listener L K)
      (F : End → List Bytes → End) (e : End)
      → Makes m e
      → ((l : Listener L K) (c : ServerConfig K) → end_of (g l c) ≡ F (end_of l) c.next_protos)
      → Makes (do l ← m; config ← server_config host o; done (g l config)) (F e [])
  unfolding server_config
  configured-Makes m g F e made same w w' l h =
      let (w1, l1, h1, h2) = and_then-ok (m w) _ w' l h in
      let (w2, c, h3, h4) = and_then-ok (server_config host o w1) _ w' l h2 in
      let none_known : c.next_protos ≡ [] =
        build_server_tls_config-next_protos host.load o c (ap (λ r. r.1) h3) in
      ap end_of (ok-eq w2 w' (g l1 c) l h4)
      ∙ same l1 c
      ∙ (λ i. F (made w w1 l1 h1 i) (none_known i))

  -- The same for what is done with a socket.
  opened-Makes :
      (b : Binding) (k : L → Calls (List L) (Listener L K)) (e : End)
      → ((s : L) → Makes (k s) e)
      → Makes (do s ← open_socket host b; k s) e
  opened-Makes b k e made w w' l h =
      let (w1, s, h1, h2) = and_then-ok (open_socket host b w) k w' l h in made s w1 w' l h2

  pub tcp-Makes : Makes (new_tcp_listener host o) (Server.raw, none)
  unfolding new_tcp_listener
  tcp-Makes =
      opened-Makes _ (λ s. done (record { socket = s; tls = none; serving = Server.raw }))
        (Server.raw, none)
        (λ s w w' l h.
          ap end_of (ok-eq w w' (record { socket = s; tls = none; serving = Server.raw }) l h))

  -- `tls.NewListener` around the listener.
  abbrev secured : Listener L K → ServerConfig K → Listener L K
  secured l config = record l { tls = some config }

  abbrev secured_end : End → List Bytes → End
  secured_end e protos = (e.0, some protos)

  pub tls-Makes : Makes (new_tls_listener host o) (Server.raw, some [])
  unfolding new_tls_listener
  tls-Makes =
      configured-Makes (new_tcp_listener host o) secured secured_end (Server.raw, none) tcp-Makes
        (λ l c. refl)

  pub mtls-Makes : Makes (new_mtls_listener host o) (Server.multiplexed Server.raw, some [])
  unfolding new_mtls_listener
  mtls-Makes =
      mapped-Makes (new_tls_listener host o) _ (λ e. (Server.multiplexed Server.raw, e.1))
        (Server.raw, some []) tls-Makes (λ l. refl)

  abbrev upgrading : Serving
  upgrading = Server.websocket o.path (not o.nocomp)

  pub ws-Makes : Makes (new_ws_listener host o) (upgrading, none)
  unfolding new_ws_listener
  ws-Makes =
      mapped-Makes (new_tcp_listener host o) _ (λ e. (upgrading, e.1)) (Server.raw, none) tcp-Makes
        (λ l. refl)

  pub wss-Makes : Makes (new_wss_listener host o) (upgrading, some [])
  unfolding new_wss_listener
  wss-Makes =
      configured-Makes (new_ws_listener host o) secured secured_end (upgrading, none) ws-Makes
        (λ l c. refl)

  pub mws-Makes : Makes (new_mws_listener host o) (Server.multiplexed upgrading, none)
  unfolding new_mws_listener
  mws-Makes =
      mapped-Makes (new_ws_listener host o) _ (λ e. (Server.multiplexed upgrading, e.1))
        (upgrading, none) ws-Makes (λ l. refl)

  pub mwss-Makes : Makes (new_mwss_listener host o) (Server.multiplexed upgrading, some [])
  unfolding new_mwss_listener
  mwss-Makes =
      configured-Makes (new_mws_listener host o) secured secured_end
        (Server.multiplexed upgrading, none) mws-Makes (λ l c. refl)

  pub gun-Makes : Makes (new_gun_listener host o) (Server.grpc o.service_name, some [])
  unfolding new_gun_listener
  gun-Makes =
      configured-Makes (new_tcp_listener host o) _
        (λ e protos. (Server.grpc o.service_name, some protos)) (Server.raw, none) tcp-Makes
        (λ l c. refl)

  pub h2-Makes : Makes (new_h2_listener host o) (Server.http2 o.path, some (codes "h2" ∷ []))
  unfolding new_h2_listener
  h2-Makes =
      configured-Makes (new_tcp_listener host o) _
        (λ e protos. (Server.http2 o.path, some (codes "h2" ∷ []))) (Server.raw, none) tcp-Makes
        (λ l c. refl)

  quic_listener-end :
      (s : L) (config : ServerConfig K) (r : Option Bytes) (w w' : List L) (l : Listener L K)
      → pure_call (quic_listener host s config r) w ≡ (w', ok l)
      → end_of l ≡ (Server.quic, some config.next_protos)
  quic_listener-end s config none w w' l h = ap end_of (ok-eq w w' _ l h)
  quic_listener-end s config (some err) w w' l h = absurd (cc)

  pub quic-Makes : Makes (new_quic_listener host o) (Server.quic, some (codes "h3" ∷ []))
  unfolding new_quic_listener
  quic-Makes w w' l h =
      let (w1, c, h1, h2) = and_then-ok (server_config host o w) _ w' l h in
      let config : ServerConfig K = record c { next_protos = codes "h3" ∷ [] } in
      opened-Makes (udp_binding (pointer (host.resolve (get_local_addr o))))
        (λ s. pure_call (quic_listener host s config (host.listen_quic s)))
        (Server.quic, some (codes "h3" ∷ [])) (λ s. quic_listener-end s config (host.listen_quic s))
        w1 w' l h2
