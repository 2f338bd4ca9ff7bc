-- ===== src/Modes/Compose/Each.antt =====
-- The listener and the transporter of each mode, and the rows of both registries.
use gost_plugin.Args.Addr.{Options, get_remote_addr}
use gost_plugin.Client.Tls.{quic_config}
use gost_plugin.Client.Transporters.{
  Transporter, grpc, grpc_transporter, h2_config, http2, multiplexed, new_gun_transporter,
  new_h2_transporter, new_mtls_transporter, new_mws_transporter, new_mwss_transporter,
  new_quic_transporter, new_tcp_transporter, new_tls_transporter, new_ws_transporter,
  new_wss_transporter, quic, tcp, tls, websocket,
}
use gost_plugin.Common.{
  Bool, Bytes, List, Option, [], ap, inl, inr, none, not, refl, some, ◌∷◌, ◌≡◌,
}
use gost_plugin.Foreign.{ok, pure_call}
use gost_plugin.Modes.{listener_rows, transporter_rows}
use gost_plugin.Modes.Agree.{
  grpc_layer, http2_layer, smux_layer, tcp_layer, tls_layer, websocket_layer,
}
use gost_plugin.Modes.Arrive.{
  gun-Reaches, h2-Reaches, mtls-Reaches, mws-Reaches, quic-Reaches, tcp-Reaches, tls-Reaches,
  ws-Reaches,
}
use gost_plugin.Modes.Compose.{Agrees, Rows, agrees}
use gost_plugin.Modes.Ends.{
  gun-Makes, h2-Makes, mtls-Makes, mws-Makes, mwss-Makes, quic-Makes, tcp-Makes, tls-Makes,
  ws-Makes, wss-Makes,
}
use gost_plugin.Proxy.Sockets.{Host}
use gost_plugin.Server.Listeners.{
  new_gun_listener, new_h2_listener, new_mtls_listener, new_mws_listener, new_mwss_listener,
  new_quic_listener, new_tcp_listener, new_tls_listener, new_ws_listener, new_wss_listener,
}
use gost_plugin.Web.{Documented, Web}
use gost_plugin.Client.Transporters as Client

module _ {L K M : Type 0} (web : Web) (documented : Documented web) (host : Host L K)
    (parses_ip : Bytes → Bool) (grpc_dial : Bytes → Option Bytes) where
  grpc_transporter-eq :
      (p : Options) (r : Option Bytes) (v v' : List M) (t : Transporter)
      → pure_call (grpc_transporter parses_ip (Client.tcp p) p r) v ≡ (v', ok t)
      → t ≡ Client.grpc (Client.tcp p) p (h2_config parses_ip p)
  grpc_transporter-eq p none v v' t h = cc
  grpc_transporter-eq p (some err) v v' t h = absurd (cc)

  gun-eq :
      (p : Options) (v v' : List M) (t : Transporter)
      → new_gun_transporter parses_ip grpc_dial p v ≡ (v', ok t)
      → t ≡ Client.grpc (Client.tcp p) p (h2_config parses_ip p)
  unfolding new_gun_transporter
  gun-eq p v v' t h = grpc_transporter-eq p (grpc_dial (get_remote_addr p)) v v' t h

  gun-Agrees :
      Agrees {M = M} web host parses_ip grpc_dial
        (new_gun_listener host)
        (new_gun_transporter parses_ip grpc_dial)
  gun-Agrees = agrees web host parses_ip grpc_dial _ _ _ _ (gun-Makes host) gun-eq (λ o p same. (
    ap (λ x. tcp_layer ∷ tls_layer ∷ grpc_layer x ∷ []) same.service_name,
    inl refl,
    gun-Reaches web documented p (Client.tcp p) (h2_config parses_ip p) o.service_name
        same.service_name,
  ))

  tcp-Agrees :
      Agrees {M = M} web host parses_ip grpc_dial
        (new_tcp_listener host)
        (new_tcp_transporter parses_ip grpc_dial)
  unfolding new_tcp_transporter
  tcp-Agrees =
      agrees web host parses_ip grpc_dial _ _ _ Client.tcp (tcp-Makes host) (λ p v v' t h. cc)
        (λ o p same. (refl, inl refl, tcp-Reaches web documented p))

  tls-Agrees :
      Agrees {M = M} web host parses_ip grpc_dial
        (new_tls_listener host)
        (new_tls_transporter parses_ip grpc_dial)
  unfolding new_tls_transporter
  tls-Agrees =
      agrees web host parses_ip grpc_dial _ _ _ (λ p. Client.tls (Client.tcp p)) (tls-Makes host)
        (λ p v v' t h. cc) (λ o p same. (refl, inl refl, tls-Reaches web documented p))

  mtls-Agrees :
      Agrees {M = M} web host parses_ip grpc_dial
        (new_mtls_listener host)
        (new_mtls_transporter parses_ip grpc_dial)
  unfolding new_mtls_transporter
  mtls-Agrees =
      agrees web host parses_ip grpc_dial _ _ _
        (λ p. Client.multiplexed (Client.tls (Client.tcp p)) p.mux) (mtls-Makes host)
        (λ p v v' t h. cc) (λ o p same. (refl, inl refl, mtls-Reaches web documented p p.mux))

  ws-Agrees :
      Agrees {M = M} web host parses_ip grpc_dial
        (new_ws_listener host)
        (new_ws_transporter parses_ip grpc_dial)
  unfolding new_ws_transporter
  ws-Agrees =
      agrees web host parses_ip grpc_dial _ _ _ (λ p. Client.websocket (Client.tcp p))
        (ws-Makes host) (λ p v v' t h. cc)
        (λ o p same. (
          ap (λ x. tcp_layer ∷ websocket_layer x ∷ []) same.path,
          inl refl,
          ws-Reaches web documented p o.path same.path same.plain (Client.tcp p) refl same.addressed
              (not o.nocomp),
        ))

  wss-Agrees :
      Agrees {M = M} web host parses_ip grpc_dial
        (new_wss_listener host)
        (new_wss_transporter parses_ip grpc_dial)
  unfolding new_wss_transporter
  wss-Agrees =
      agrees web host parses_ip grpc_dial _ _ _ (λ p. Client.websocket (Client.tls (Client.tcp p)))
        (wss-Makes host) (λ p v v' t h. cc)
        (λ o p same. (
          ap (λ x. tcp_layer ∷ tls_layer ∷ websocket_layer x ∷ []) same.path,
          inl refl,
          ws-Reaches web documented p o.path same.path same.plain (Client.tls (Client.tcp p)) refl
              same.addressed (not o.nocomp),
        ))

  mws-Agrees :
      Agrees {M = M} web host parses_ip grpc_dial
        (new_mws_listener host)
        (new_mws_transporter parses_ip grpc_dial)
  unfolding new_mws_transporter
  mws-Agrees =
      agrees web host parses_ip grpc_dial _ _ _
        (λ p. Client.multiplexed (Client.websocket (Client.tcp p)) p.mux) (mws-Makes host)
        (λ p v v' t h. cc)
        (λ o p same. (
          ap (λ x. tcp_layer ∷ websocket_layer x ∷ smux_layer ∷ []) same.path,
          inl refl,
          mws-Reaches web documented p o.path same.path same.plain (Client.tcp p) refl
              same.addressed (not o.nocomp) p.mux,
        ))

  mwss-Agrees :
      Agrees {M = M} web host parses_ip grpc_dial
        (new_mwss_listener host)
        (new_mwss_transporter parses_ip grpc_dial)
  unfolding new_mwss_transporter
  mwss-Agrees =
      agrees web host parses_ip grpc_dial _ _ _
        (λ p. Client.multiplexed (Client.websocket (Client.tls (Client.tcp p))) p.mux)
        (mwss-Makes host) (λ p v v' t h. cc)
        (λ o p same. (
          ap (λ x. tcp_layer ∷ tls_layer ∷ websocket_layer x ∷ smux_layer ∷ []) same.path,
          inl refl,
          mws-Reaches web documented p o.path same.path same.plain (Client.tls (Client.tcp p)) refl
              same.addressed (not o.nocomp) p.mux,
        ))

  h2-Agrees :
      Agrees {M = M} web host parses_ip grpc_dial
        (new_h2_listener host)
        (new_h2_transporter parses_ip grpc_dial)
  unfolding new_h2_transporter
  h2-Agrees =
      agrees web host parses_ip grpc_dial _ _ _
        (λ p. Client.http2 (Client.tcp p) p (h2_config parses_ip p)) (h2-Makes host)
        (λ p v v' t h. cc)
        (λ o p same. (
          ap (λ x. tcp_layer ∷ tls_layer ∷ http2_layer x ∷ []) same.path,
          inr refl,
          h2-Reaches web documented p o.path same.path same.plain (Client.tcp p)
              (h2_config parses_ip p),
        ))

  quic-Agrees :
      Agrees {M = M} web host parses_ip grpc_dial
        (new_quic_listener host)
        (new_quic_transporter parses_ip grpc_dial)
  unfolding new_quic_transporter quic_config
  quic-Agrees =
      agrees web host parses_ip grpc_dial _ _ _ Client.quic (quic-Makes host) (λ p v v' t h. cc)
        (λ o p same. (refl, inr refl, quic-Reaches web documented p))

  pub listener_rows-Rows :
      Rows {M = M} web host parses_ip grpc_dial
        (listener_rows host)
        (transporter_rows parses_ip grpc_dial)
  listener_rows-Rows = (
    refl,
    tcp-Agrees,
    (
      refl,
      gun-Agrees,
      (
        refl,
        gun-Agrees,
        (
          refl,
          h2-Agrees,
          (
            refl,
            mtls-Agrees,
            (
              refl,
              mws-Agrees,
              (
                refl,
                mwss-Agrees,
                (refl, quic-Agrees, (refl, tls-Agrees, (refl, ws-Agrees, (refl, wss-Agrees, tt)))),
              ),
            ),
          ),
        ),
      ),
    ),
  )
