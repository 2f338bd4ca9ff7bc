-- ===== src/Tunnel/OverWebsocket.antt =====
-- A tunnel over WebSocket, from io.Copy at the client to io.Copy at the server, with the upgrade of
-- the server between them.
use gost_plugin.Args.Addr.{Options}
use gost_plugin.Client.Ws.{Delayed, Wire}
use gost_plugin.Client.Ws.Pipe.{DelayedOpen, delayed-Writable, delayed_given, delayed_write}
use gost_plugin.Common.{
  All, Bytes, Option, [], ap, none, refl, some, subst, suc, sym, ℕ, ◌++◌, ◌<◌, ◌∙◌, ◌≡◌,
}
use gost_plugin.Conn.{ReadResult, Readable, Writable, WriteResult}
use gost_plugin.Conn.Copy.{copy}
use gost_plugin.Conn.Copy.Laws.{Copies}
use gost_plugin.Protocol.Base64.Laws.{IsByte}
use gost_plugin.Protocol.Websocket.Methods.{
  Socket, WebsocketPipe, new_websocket_conn, websocket_conn,
}
use gost_plugin.Protocol.Websocket.Pipe.{
  websocket-Readable, websocket_calls, websocket_ends, websocket_holds,
}
use gost_plugin.Tunnel.{
  delivered, early_of, early_payload-early_bytes, first_error-delivered, readable-delivered,
}
use gost_plugin.Tunnel.Relayed.{relayed_lem}
use gost_plugin.Client.Ws.Laws as Delay

-- The server's end of a connection, once it has been dialled: what `Upgrade` has made of the request,
-- with the early payload, on the messages written since.
abbrev pub websocket_far : {W : Type 0} → W → Delayed → WebsocketPipe W
websocket_far w d = elim d.conn [
  | none ↦ new_websocket_conn [] [] w
  | some n ↦ new_websocket_conn (early_of n) (delivered n.messages) w
]

wire-link :
    {W : Type 0} (w : W) (size : ℕ) (conn : Option Wire) (d : Delayed)
    → d.conn ≡ conn
    → websocket_holds size (websocket_far w d) ≡ delayed_given d
unfolding new_websocket_conn
wire-link w size none d e = rw (e) refl
wire-link w size (some n) d e =
    ap (λ x. websocket_holds size (websocket_far w (record d { conn = x }))) e
    ∙ (λ i.
        early_payload-early_bytes n.opened_by.protocol i ++ readable-delivered size n.messages i)
    ∙ ap (λ x. delayed_given (record d { conn = x })) (sym e)

wire-ends :
    {W : Type 0} (w : W) (conn : Option Wire) (d : Delayed)
    → d.conn ≡ conn
    → websocket_ends (websocket_far w d) ≡ none
unfolding new_websocket_conn
wire-ends w none d e = rw (e) refl
wire-ends w (some n) d e =
    ap (λ x. websocket_ends (websocket_far w (record d { conn = x }))) e
    ∙ first_error-delivered n.messages

module _ {C F W : Type 0} (read : ℕ → C → ReadResult C) (holds : C → Bytes)
    (ends : C → Option Bytes) (calls : C → ℕ) (write : Bytes → F → WriteResult F)
    (FarOpen : F → Type 0) (far_given : F → Bytes) (S : Socket W) (size : ℕ)
    (R : Readable read size holds ends calls) (T : Writable write FarOpen far_given) where
  -- Two handlers with a WebSocket between them: the client copies from a connection that holds bytes
  -- to one that waits with dialling, and the server copies from the connection that `Upgrade` makes of
  -- the request to one that takes all. If no call fails and the fuel of the first exceeds its calls of
  -- `Read`, all the bytes arrive, in order, however many went into the handshake; the second copy
  -- then waits for more.
  pub websocket_relayed :
      (o : Options) (url : Bytes) (ed fuel : ℕ) (c : C) (w : W) (f : F)
      → 0 < size
      → FarOpen f
      → All IsByte (holds c)
      → calls c < fuel
      → let r = copy read delayed_write size fuel c (Delay.fresh o url ed) in
        let e = websocket_far w r.dst in
        Copies FarOpen far_given
          (holds c)
          none
          f
          (copy (websocket_conn S).read write size (suc (websocket_calls e)) e f)
  websocket_relayed o url ed fuel c w f pos fo bytes lt =
      let r = copy read delayed_write size fuel c (Delay.fresh o url ed) in
      let e = websocket_far w r.dst in
      subst
        (λ x.
          Copies FarOpen far_given (holds c) x f
            (copy (websocket_conn S).read write size (suc (websocket_calls e)) e f))
        (wire-ends w r.dst.conn r.dst refl)
        (relayed_lem read holds ends calls delayed_write DelayedOpen delayed_given
          (websocket_conn S).read (websocket_holds size) websocket_ends websocket_calls write
          FarOpen far_given size R delayed-Writable (websocket-Readable S size pos) T
          (websocket_far w) fuel c (Delay.fresh o url ed) f (λ x _. wire-link w size x.conn x refl)
          (refl, refl) fo tt bytes lt)
