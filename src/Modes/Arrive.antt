-- ===== src/Modes/Arrive.antt =====
-- What a dial of the client brings to the server: for each transporter, what the foreign code hands to
-- the listener of the other end.
use gost_plugin.Args.Addr.{Options, get_remote_addr}
use gost_plugin.Client.Gun.{tun_method}
use gost_plugin.Client.H2.{h2_request}
use gost_plugin.Client.Transporters.{
  Transporter, grpc, http2, multiplexed, quic, tcp, tls, websocket,
}
use gost_plugin.Client.Ws.{Handshake, handshake, ws_url}
use gost_plugin.Common.{
  All, Bool, Bytes, Option, [], ap, equal, equal_refl, false, if◌then◌else◌, none, refl, some, sym,
  true, ℕ, ◌&&◌, ◌∙◌, ◌≡◌,
}
use gost_plugin.Foreign.{ok}
use gost_plugin.Protocol.Base64.Laws.{IsByte}
use gost_plugin.Proxy.Queue.{offer}
use gost_plugin.Server.Listeners.{Serving, raw}
use gost_plugin.Server.Serve.{
  Arrival, Channel, any_served, call, is_method, lost, mux_raw, mux_websocket, muxed, plain,
  request, serve, serve_grpc, serve_http2, serve_multiplexed, serve_quic, serve_raw,
  serve_websocket, session_stream,
}
use gost_plugin.Server.Streams.{accept_streams}
use gost_plugin.Server.Upgrade.{
  Multiplexed, Response, accepted, mux_upgrade, not_found, serve_http, tun, upgrade,
}
use gost_plugin.Server.Upgrade.Laws.{mux_upgrade-handshake, payload, request_of, upgrade-handshake}
use gost_plugin.Web.{Documented, Web, is_plain}
use gost_plugin.Client.Transporters as Client
use gost_plugin.Server.Listeners as Server
use gost_plugin.Proxy.Accept as Accepting

abbrev pub options_of : Transporter → Options
options_of (Client.tcp o) = o
options_of (Client.tls t) = options_of t
options_of (Client.websocket t) = options_of t
options_of (Client.multiplexed t n) = options_of t
options_of (Client.http2 t o config) = o
options_of (Client.grpc t o config) = o
options_of (Client.quic o) = o

-- The request that reaches the server, if there is one.
abbrev pub requested_at : Option Bytes → Handshake → ℕ → Arrival ℕ
requested_at none h n = lost
requested_at (some path) h n = request (request_of h path) (ok n)

abbrev pub put_at : Option Bytes → ℕ → Arrival ℕ
put_at none n = lost
put_at (some path) n = request (record { path = path; protocol = [] }) (ok n)

-- A connection is a number at the server, and so is the one below that a session of smux runs over.
-- `ed` is the early data of a WebSocket. Nothing that stands between the two ends fails.
unfoldable pub arrival_of : Web → Transporter → Option Bytes → ℕ → ℕ → Arrival ℕ
unfolding handshake ws_url h2_request
arrival_of web (Client.tcp o) ed below n = plain n
arrival_of web (Client.tls t) ed below n = arrival_of web t ed below n
arrival_of web (Client.websocket t) ed below n =
    let o = options_of t in
    let h = handshake o (ws_url o) ed in requested_at (web.requested h.url) h n
arrival_of web (Client.multiplexed t limit) ed below n = muxed (arrival_of web t ed below below) n
arrival_of web (Client.http2 t o config) ed below n = put_at (web.sent_path (h2_request o).path) n
arrival_of web (Client.grpc t o config) ed below n = call (tun_method o.service_name) n
arrival_of web (Client.quic o) ed below n = session_stream n

-- The bytes that the server's connection starts with; those of a multiplexed one go to the session.
abbrev pub starts_with : Transporter → Option Bytes → Bytes
starts_with (Client.websocket t) ed = payload ed
starts_with _ ed = []

-- Early data: a text of bytes.
pub record EarlyData : Type 0 where
  pub text : Bytes
  pub in_bytes : All IsByte text

abbrev pub text_of : Option EarlyData → Option Bytes
text_of none = none
text_of (some e) = some e.text

text_of-bytes : (ed : Option EarlyData) → All IsByte (payload (text_of ed))
text_of-bytes none = tt
text_of-bytes (some e) = e.in_bytes

-- A connection that the transporter dials is sent to the channel of the listener, with the early data
-- that it carries, or closed if the channel is full.
abbrev pub Reaches : Web → Serving → Transporter → Type 0
Reaches web s t =
    (q : Channel ℕ) (ed : Option EarlyData) (below n : ℕ)
    → serve web s q (arrival_of web t (text_of ed) below n)
      ≡ offer q (n, starts_with t (text_of ed))

module _ (web : Web) (documented : Documented web) (p : Options) where
  pub tcp-Reaches : Reaches web Server.raw (Client.tcp p)
  unfolding serve serve_raw Accepting.keep_accepting Accepting.step Accepting.round arrival_of
  tcp-Reaches q ed below n = refl

  pub tls-Reaches : Reaches web Server.raw (Client.tls (Client.tcp p))
  unfolding serve serve_raw Accepting.keep_accepting Accepting.step Accepting.round arrival_of
  tls-Reaches q ed below n = refl

  pub mtls-Reaches :
      (limit : ℕ)
      → Reaches web
          (Server.multiplexed Server.raw)
          (Client.multiplexed (Client.tls (Client.tcp p)) limit)
  unfolding serve serve_multiplexed mux_raw Accepting.keep_mux_accepting Accepting.serve_mux
      Accepting.serve_streams arrival_of
  mtls-Reaches limit q ed below n = refl

  pub quic-Reaches : Reaches web Server.quic (Client.quic p)
  unfolding serve serve_quic accept_streams arrival_of
  quic-Reaches q ed below n = refl

  -- The paths of both ends are the same and plain, and the address can stand in a URL.
  module _ (path : Bytes) (same : path ≡ p.path) (is_clear : is_plain p.path ≡ true) where
    module _ (t : Transporter) (at : options_of t ≡ p)
        (addressed : web.is_authority (get_remote_addr p) ≡ true) where
      -- The request of a WebSocket comes with the path of the options.
      ws_requested : web.requested (ws_url (options_of t)) ≡ some (options_of t).path
      unfolding ws_url
      ws_requested =
          documented.requested-plain (get_remote_addr (options_of t)) (options_of t).path
            (ap (λ o. web.is_authority (get_remote_addr o)) at ∙ addressed)
            (ap (λ o. is_plain o.path) at ∙ is_clear)

      ws_routed : web.routed path (options_of t).path ≡ true
      ws_routed =
          ap (λ x. web.routed x (options_of t).path) (same ∙ ap (λ o. o.path) (sym at))
          ∙ documented.routed-plain (options_of t).path (ap (λ o. is_plain o.path) at ∙ is_clear)

      pub ws-Reaches :
          (compression : Bool)
          → Reaches web (Server.websocket path compression) (Client.websocket t)
      unfolding serve serve_websocket arrival_of handshake
      ws-Reaches compression q ed below n =
          let o = options_of t in
          let h = handshake o (ws_url o) (text_of ed) in
          ap (λ r. serve web (Server.websocket path compression) q (requested_at r h n))
            ws_requested
          ∙ ap (λ b. if b then (upgrade path q (request_of h o.path) (ok n)).0 else q) ws_routed
          ∙ ap (λ x. (upgrade x q (request_of h o.path) (ok n)).0)
              (same ∙ ap (λ x. x.path) (sym at))
          ∙ ap (λ r. r.0)
              (upgrade-handshake o.path q o (ws_url o) (text_of ed) n (text_of-bytes ed))

      pub mws-Reaches :
          (compression : Bool) (limit : ℕ)
          → Reaches web
              (Server.multiplexed (Server.websocket path compression))
              (Client.multiplexed (Client.websocket t) limit)
      unfolding serve serve_multiplexed mux_websocket Accepting.serve_mux Accepting.serve_streams
          arrival_of handshake
      mws-Reaches compression limit q ed below n =
          let o = options_of t in
          let h = handshake o (ws_url o) (text_of ed) in
          let fresh : Multiplexed ℕ = record { served = []; left_open = [] } in
          let sent_if : Bool → Channel ℕ = λ b. if b then offer q (n, []) else q in
          ap
            (λ r.
              serve web (Server.multiplexed (Server.websocket path compression)) q
                (muxed (requested_at r h below) n))
            ws_requested
          ∙ ap
              (λ b. sent_if (
                b && any_served (mux_upgrade path fresh (request_of h o.path) (ok below)).0.served))
              ws_routed
          ∙ ap
              (λ x.
                sent_if
                  (any_served (mux_upgrade x fresh (request_of h o.path) (ok below)).0.served))
              (same ∙ ap (λ x. x.path) (sym at))
          ∙ ap (λ r. sent_if (any_served r.0.served))
              (mux_upgrade-handshake o.path fresh o (ws_url o) (text_of ed) below
                (text_of-bytes ed))

    pub h2-Reaches :
        (t : Transporter) (config : _) → Reaches web (Server.http2 path) (Client.http2 t p config)
    unfolding serve serve_http2 serve_http arrival_of h2_request
    h2-Reaches t config q ed below n =
        let handled : Bool → Channel ℕ = λ b.
          let r : Channel ℕ × Response =
            if b then (offer q (n, []), accepted) else (q, not_found) in
          r.0 in
        ap (λ r. serve web (Server.http2 path) q (put_at r n))
          (documented.sent_path-plain p.path is_clear)
        ∙ ap (λ b. if b then handled (equal p.path path) else q)
            (ap (λ x. web.routed x p.path) same ∙ documented.routed-plain p.path is_clear)
        ∙ ap handled (ap (λ x. equal p.path x) same ∙ equal_refl p.path)

  pub gun-Reaches :
      (t : Transporter) (config : _) (name : Bytes)
      → name ≡ p.service_name
      → Reaches web (Server.grpc name) (Client.grpc t p config)
  unfolding equal serve serve_grpc is_method arrival_of tun
  gun-Reaches t config name e q ed below n =
      ap (λ (x : Bool). if if x then true else false then offer q (n, []) else q)
        (ap (λ s. equal (tun_method p.service_name) (tun_method s)) e
          ∙ equal_refl (tun_method p.service_name))
