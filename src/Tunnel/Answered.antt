-- ===== src/Tunnel/Answered.antt =====
-- The way back over a WebSocket: from io.Copy at the server to io.Copy at the client, whose connection
-- waited with dialling.
use gost_plugin.Args.Addr.{Options}
use gost_plugin.Client.Ws.{Delayed, Wire, early, read, reads, sent, write}
use gost_plugin.Client.Ws.Laws.{fresh}
use gost_plugin.Client.Ws.Pipe.{DelayedOpen, delayed-Writable, delayed_given, delayed_write}
use gost_plugin.Client.Ws.Reader.{
  DelayedPipe, delayed-Readable, delayed_calls, delayed_ends, delayed_holds, delayed_pipe,
  delayed_read, ends_by, holds_by,
}
use gost_plugin.Common.{
  All, Bool, Bytes, List, Option, [], ap, concat, false, none, refl, some, subst, suc, sym, true, ℕ,
  ◌++◌, ◌<◌, ◌∙◌, ◌≡◌, ◌≢◌,
}
use gost_plugin.Conn.{ReadResult, Readable, Sends, Writable, WriteResult}
use gost_plugin.Conn.Copy.{copy}
use gost_plugin.Conn.Copy.Laws.{Copies, copy_lem}
use gost_plugin.Protocol.Base64.Laws.{IsByte}
use gost_plugin.Protocol.Websocket.Methods.{
  Socket, WebsocketPipe, new_websocket_conn, websocket_conn,
}
use gost_plugin.Protocol.Websocket.Pipe.{WebsocketOpen, websocket-Writable, websocket_given}
use gost_plugin.Tunnel.{delivered, first_error-delivered, readable-delivered}
use gost_plugin.Tunnel.Relayed.{relayed_lem}
use gost_plugin.Client.Ws as Ws

-- The server's end with its early payload and the messages still to come, and the client's, which
-- receives the messages that the server's socket has sent.
abbrev pub server_end : {V : Type 0} → Bytes → V → WebsocketPipe V
server_end early v = new_websocket_conn early [] v

abbrev pub client_end :
    {V W : Type 0} → (V → List Bytes) → Delayed → W → WebsocketPipe V → DelayedPipe W
client_end sent d w n = delayed_pipe d (new_websocket_conn [] (delivered (sent n.world)) w)

-- A connection that is open and was given some byte is one that reads.
reads-given :
    (closed dialed : Bool) (conn : Option Wire) (d : Delayed)
    → d.closed ≡ closed
    → d.dialed ≡ dialed
    → d.conn ≡ conn
    → DelayedOpen d
    → delayed_given d ≢ []
    → Ws.read d ≡ reads
unfolding Ws.read
reads-given true dialed conn d ec ed e (o, v) ne = absurd (cc)
reads-given false true conn d ec ed e (o, v) ne = rw (ec, ed) refl
reads-given false false none d ec ed e (o, v) ne =
    absurd (ne (ap (λ x. delayed_given (record d { conn = x })) e))
reads-given false false (some w) d ec ed e (o, v) ne =
    let dialed : d.dialed ≡ true =
      subst (λ x. elim x [ none ↦ d.dialed ≡ false | some w ↦ d.dialed ≡ true ]) e v in
    absurd (cc)

-- The client's connection behind a copy of at least one byte.
pub copied-reads :
    {C : Type 0} (read : ℕ → C → ReadResult C) (holds : C → Bytes) (ends : C → Option Bytes)
    (calls : C → ℕ) (size fuel : ℕ) (R : Readable read size holds ends calls) (o : Options)
    (url : Bytes) (ed : ℕ) (c : C)
    → All IsByte (holds c)
    → holds c ≢ []
    → calls c < fuel
    → Ws.read (copy read delayed_write size fuel c (fresh o url ed)).dst ≡ reads
copied-reads read holds ends calls size fuel R o url ed c bytes ne lt =
    let d : Delayed = (copy read delayed_write size fuel c (fresh o url ed)).dst in
    let (n, g, e, open_after) =
      copy_lem read delayed_write DelayedOpen delayed_given delayed-Writable size holds ends calls R
        fuel c (fresh o url ed) (refl, refl) bytes lt in
    reads-given d.closed d.dialed d.conn d refl refl refl open_after (λ h. ne (sym g ∙ h))

module _ {C F V W : Type 0} (read : ℕ → C → ReadResult C) (holds : C → Bytes)
    (ends : C → Option Bytes) (calls : C → ℕ) (write : Bytes → F → WriteResult F)
    (FarOpen : F → Type 0) (far_given : F → Bytes) (S : Socket V) (T : Socket W) (Open : V → Type 0)
    (sent : V → List Bytes) (size : ℕ) (R : Readable read size holds ends calls)
    (K : Writable write FarOpen far_given) (L : Sends S.write_message Open sent) where
  -- The server copies from a connection that holds bytes to its end of a WebSocket, which can send and
  -- has sent nothing, and the client copies from its own end, which is dialled and not closed, to a
  -- connection that takes all: all the bytes arrive, in order, and the client then waits for more.
  pub websocket_answered :
      (early : Bytes) (d : Delayed) (fuel : ℕ) (c : C) (v : V) (w : W) (f : F)
      → 0 < size
      → Ws.read d ≡ reads
      → Open v
      → sent v ≡ []
      → FarOpen f
      → All IsByte (holds c)
      → calls c < fuel
      → let r = copy read (websocket_conn S).write size fuel c (server_end early v) in
        let e = client_end sent d w r.dst in
        Copies FarOpen far_given
          (holds c)
          none
          f
          (copy (delayed_read T) write size (suc (delayed_calls e)) e f)
  unfolding new_websocket_conn
  websocket_answered early d fuel c v w f pos dialled o empty fo bytes lt =
      let near = server_end early v in
      let r = copy read (websocket_conn S).write size fuel c near in
      let e = client_end sent d w r.dst in
      let none_given : websocket_given S Open sent L near ≡ [] = ap concat empty in
      let h =
        relayed_lem read holds ends calls (websocket_conn S).write (WebsocketOpen S Open sent L)
          (websocket_given S Open sent L) (delayed_read T) (delayed_holds size) delayed_ends
          delayed_calls write FarOpen far_given size R (websocket-Writable S Open sent L)
          (delayed-Readable T size pos) K (client_end sent d w) fuel c near f
          (λ x _.
            ap (holds_by size (client_end {W = W} sent d w x).under) dialled
            ∙ readable-delivered size (sent x.world))
          o fo (subst (λ x. All IsByte x) (sym none_given) tt) bytes lt in
      let ended : delayed_ends e ≡ none =
        ap (ends_by e.under) dialled ∙ first_error-delivered (sent r.dst.world) in
      subst
        (λ x.
          Copies FarOpen far_given x none f
            (copy (delayed_read T) write size (suc (delayed_calls e)) e f))
        (ap (λ x. x ++ holds c) none_given)
        (subst
          (λ x.
            Copies FarOpen far_given (websocket_given S Open sent L near ++ holds c) x f
              (copy (delayed_read T) write size (suc (delayed_calls e)) e f))
          ended h)
