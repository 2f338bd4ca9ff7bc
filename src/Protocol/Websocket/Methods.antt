-- ===== src/Protocol/Websocket/Methods.antt =====
-- The methods of websocketConn in gost/protocol/websocket/conn.go as those of a `net.Conn`.
use gost_plugin.Common.{Bytes, List, Option, none, some, ℕ}
use gost_plugin.Conn.{Conn, ReadResult, WriteResult}
use gost_plugin.Protocol.Address.{Address}
use gost_plugin.Protocol.Websocket.{Message, read, write}
use gost_plugin.Protocol.Websocket as Websocket

-- gorilla/websocket, on a state `W` of the outside world; what its `ReadMessage` returns is the
-- `inbox` of the connection.
pub record Socket (W : Type 0) : Type 0 where
  pub write_message : Bytes → W → W × Option Bytes
  pub close_socket : W → W × Option Bytes
  pub socket_local : W → Address
  pub socket_remote : W → Address
  pub read_deadline : ℕ → W → W × Option Bytes
  pub write_deadline : ℕ → W → W × Option Bytes

pub record WebsocketPipe (W : Type 0) : Type 0 where
  pub rb : Bytes
  pub inbox : List Message
  pub world : W

-- `NewWebsocketConn`
unfoldable pub new_websocket_conn : {W : Type 0} → Bytes → List Message → W → WebsocketPipe W
new_websocket_conn rb inbox w = record { rb = rb; inbox = inbox; world = w }

module _ {W : Type 0} where
  abbrev pub websocket_read :
      WebsocketPipe W → Option Websocket.ReadResult → ReadResult (WebsocketPipe W)
  websocket_read p none = none
  websocket_read p (some (bs, err, rb, inbox)) =
      some (bs, err, record { rb = rb; inbox = inbox; world = p.world })

  -- The connection on the world that a call of the socket left.
  abbrev pub moved : WebsocketPipe W → W × Option Bytes → WebsocketPipe W × Option Bytes
  moved p (w, err) = (record { rb = p.rb; inbox = p.inbox; world = w }, err)

  abbrev pub websocket_written :
      WebsocketPipe W → Bytes → W × Option Bytes → WriteResult (WebsocketPipe W)
  websocket_written p b (w, err) =
      let r = write err b in some (r.0, r.1, record { rb = p.rb; inbox = p.inbox; world = w })

  -- `if err := c.SetReadDeadline(t); err != nil { return err }`, and the other deadline.
  abbrev pub both_deadlines :
      Socket W → ℕ → WebsocketPipe W → W × Option Bytes → WebsocketPipe W × Option Bytes
  both_deadlines S t p (w, some err) = moved p (w, some err)
  both_deadlines S t p (w, none) = moved p (S.write_deadline t w)

  unfoldable pub websocket_conn : Socket W → Conn (WebsocketPipe W)
  unfolding read write
  websocket_conn S = record {
    read = λ size p. websocket_read p (read size p.rb p.inbox);
    write = λ b p. websocket_written p b (S.write_message b p.world);
    close = λ p. let r = moved p (S.close_socket p.world) in some (r.1, r.0);
    local_addr = λ p. S.socket_local p.world;
    remote_addr = λ p. S.socket_remote p.world;
    set_deadline = λ t p. both_deadlines S t p (S.read_deadline t p.world);
    set_read_deadline = λ t p. moved p (S.read_deadline t p.world);
    set_write_deadline = λ t p. moved p (S.write_deadline t p.world);
  }
