-- ===== src/Protocol/Websocket/Pipe.antt =====
-- A WebSocket connection as a stream of bytes, read and written.
use gost_plugin.Common.{
  Bytes, List, Option, [], ap, arith, concat, length, length-append, length-drop, none, refl, some,
  ℕ, ◌++◌, ◌+◌, ◌<◌, ◌∙◌, ◌∷◌, ◌≡◌,
}
use gost_plugin.Conn.{Conn, Readable, Reads, Sends, Writable, concat-snoc}
use gost_plugin.Protocol.Stream.{length-take-le, take-drop}
use gost_plugin.Protocol.Websocket.{Message, read, write}
use gost_plugin.Protocol.Websocket.Laws.{first_error, payloads, readable}
use gost_plugin.Protocol.Websocket.Methods.{
  Socket, WebsocketPipe, new_websocket_conn, websocket_conn, websocket_read, websocket_written,
}
use gost_plugin.Conn as Conn

abbrev pub websocket_holds : {W : Type 0} → ℕ → WebsocketPipe W → Bytes
websocket_holds size p = p.rb ++ readable size p.inbox

abbrev pub websocket_ends : {W : Type 0} → WebsocketPipe W → Option Bytes
websocket_ends p = first_error p.inbox

abbrev pub websocket_calls : {W : Type 0} → WebsocketPipe W → ℕ
websocket_calls p = length p.rb + length (payloads p.inbox) + length p.inbox

module _ {W : Type 0} (S : Socket W) (size : ℕ) (pos : 0 < size) where
  abbrev ReadsFrom : Bytes → List Message → W → Type 0
  ReadsFrom rb inbox w =
      Conn.Reads (websocket_holds size) websocket_ends websocket_calls size
        (new_websocket_conn rb inbox w)
        (websocket_read (new_websocket_conn rb inbox w) (read size rb inbox))

  message-Reads :
      (payload : Bytes) (error : Option Bytes) (inbox : List Message) (w : W)
      → ReadsFrom [] (record { payload = payload; error = error } ∷ inbox) w
  unfolding read new_websocket_conn
  message-Reads payload none inbox w = (
    take-drop size payload (readable size inbox),
    refl,
    length-take-le size payload,
    omega (arith, length-drop size payload, length-append payload (payloads inbox)),
  )
  message-Reads payload (some err) inbox w = (refl, refl, length-take-le size payload)

  websocket-Reads : (rb : Bytes) (inbox : List Message) (w : W) → ReadsFrom rb inbox w
  unfolding read new_websocket_conn
  websocket-Reads [] [] w = (refl, refl)
  websocket-Reads [] (m ∷ inbox) w = message-Reads m.payload m.error inbox w
  websocket-Reads (b ∷ rb) inbox w = (
    take-drop size (b ∷ rb) (readable size inbox),
    refl,
    length-take-le size (b ∷ rb),
    omega (arith, length-drop size (b ∷ rb)),
  )

  -- A WebSocket connection gives its buffered bytes and the bytes of its messages, up to the first
  -- that comes with an error, and of that one as much as one buffer takes.
  pub websocket-Readable :
      Readable (websocket_conn S).read size (websocket_holds size) websocket_ends websocket_calls
  unfolding websocket_conn new_websocket_conn
  websocket-Readable = record { reads = λ p. websocket-Reads p.rb p.inbox p.world }

module _ {W : Type 0} (S : Socket W) (Open : W → Type 0) (sent : W → List Bytes)
    (L : Sends S.write_message Open sent) where
  abbrev pub websocket_given : WebsocketPipe W → Bytes
  websocket_given p = concat (sent p.world)

  abbrev pub WebsocketOpen : WebsocketPipe W → Type 0
  WebsocketOpen p = Open p.world

  websocket_writes :
      (b : Bytes) (p : WebsocketPipe W)
      → Open p.world
      → (p' : WebsocketPipe W) × ((websocket_conn S).write b p ≡ some (length b, none, p'))
        × Open p'.world
        × (websocket_given p' ≡ websocket_given p ++ b)
  unfolding websocket_conn write
  websocket_writes b p o =
      let (w', e, o', s) = L.sending b p.world o in
      (
        record { rb = p.rb; inbox = p.inbox; world = w' },
        ap (websocket_written p b) e,
        o',
        ap concat s ∙ concat-snoc (sent p.world) b,
      )

  pub websocket-Writable : Writable (websocket_conn S).write WebsocketOpen websocket_given
  websocket-Writable = record { writes = λ b p o bytes. websocket_writes b p o }
