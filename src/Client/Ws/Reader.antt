-- ===== src/Client/Ws/Reader.antt =====
-- The connection that waits with dialling, as one that is read.
use gost_plugin.Client.Ws.{Delayed, Reading, closed_pipe, delayed, fails, read, reads, waits}
use gost_plugin.Common.{Bytes, Option, [], ap, arith, none, refl, some, sym, ℕ, ◌++◌, ◌<◌, ◌∙◌, ◌≡◌}
use gost_plugin.Conn.{Conn, ReadResult, Readable, Reads}
use gost_plugin.Protocol.Websocket.Methods.{Socket, WebsocketPipe, websocket_conn}
use gost_plugin.Protocol.Websocket.Pipe.{
  websocket-Readable, websocket_calls, websocket_ends, websocket_holds,
}
use gost_plugin.Client.Ws as Ws
use gost_plugin.Conn as Conn

-- The connection, and the WebSocket that it reads from once it is dialled.
pub record DelayedPipe (W : Type 0) : Type 0 where
  pub delayed : Delayed
  pub under : WebsocketPipe W

abbrev pub delayed_pipe : {W : Type 0} → Delayed → WebsocketPipe W → DelayedPipe W
delayed_pipe d u = record { delayed = d; under = u }

module _ {W : Type 0} where
  -- `return d.Conn.Read(b)`
  abbrev pub under_read : Delayed → ReadResult (WebsocketPipe W) → ReadResult (DelayedPipe W)
  under_read d none = none
  under_read d (some (bs, err, u)) = some (bs, err, delayed_pipe d u)

  abbrev pub read_by : Socket W → ℕ → DelayedPipe W → Reading → ReadResult (DelayedPipe W)
  read_by S size p waits = none
  read_by S size p fails = some ([], some closed_pipe, p)
  read_by S size p reads = under_read p.delayed ((websocket_conn S).read size p.under)

  -- `Read` of delayDialConn
  unfoldable pub delayed_read : Socket W → ℕ → DelayedPipe W → ReadResult (DelayedPipe W)
  unfolding Ws.read websocket_conn
  delayed_read S size p = read_by S size p (Ws.read p.delayed)

  -- What a reader gets: nothing while it waits or when the connection was closed.
  abbrev pub holds_by : ℕ → WebsocketPipe W → Reading → Bytes
  holds_by size u waits = []
  holds_by size u fails = []
  holds_by size u reads = websocket_holds size u

  abbrev pub ends_by : WebsocketPipe W → Reading → Option Bytes
  ends_by u waits = none
  ends_by u fails = some closed_pipe
  ends_by u reads = websocket_ends u

  abbrev pub delayed_holds : ℕ → DelayedPipe W → Bytes
  delayed_holds size p = holds_by size p.under (Ws.read p.delayed)

  abbrev pub delayed_ends : DelayedPipe W → Option Bytes
  delayed_ends p = ends_by p.under (Ws.read p.delayed)

  abbrev pub delayed_calls : DelayedPipe W → ℕ
  delayed_calls p = websocket_calls p.under

module _ {W : Type 0} (S : Socket W) (size : ℕ) (pos : 0 < size) where
  abbrev ReadsOn : DelayedPipe W → ReadResult (DelayedPipe W) → Type 0
  ReadsOn p r = Conn.Reads (delayed_holds size) delayed_ends delayed_calls size p r

  under_read-Reads :
      (d : Delayed) (u : WebsocketPipe W) (r : ReadResult (WebsocketPipe W))
      → Ws.read d ≡ reads
      → Conn.Reads (websocket_holds size) websocket_ends websocket_calls size u r
      → ReadsOn (delayed_pipe d u) (under_read d r)
  under_read-Reads d u none e (h, k) = (ap (holds_by size u) e ∙ h, ap (ends_by u) e ∙ k)
  under_read-Reads d u (some (bs, some err, u')) e (h, k, len) =
      (ap (holds_by size u) e ∙ h, ap (ends_by u) e ∙ k, len)
  under_read-Reads d u (some (bs, none, u')) e (h, k, len, less) = (
    ap (holds_by size u) e ∙ h ∙ ap (λ x. bs ++ holds_by size u' x) (sym e),
    ap (ends_by u) e ∙ k ∙ ap (ends_by u') (sym e),
    len,
    less,
  )

  read_by-Reads :
      (d : Delayed) (u : WebsocketPipe W) (r : Reading)
      → Ws.read d ≡ r
      → ReadsOn (delayed_pipe d u) (read_by S size (delayed_pipe d u) r)
  read_by-Reads d u waits e = (ap (holds_by size u) e, ap (ends_by u) e)
  read_by-Reads d u fails e = (ap (holds_by size u) e, ap (ends_by u) e, omega arith)
  read_by-Reads d u reads e =
      under_read-Reads d u ((websocket_conn S).read size u) e
        ((websocket-Readable S size pos).reads u)

  -- A connection that was dialled and not closed gives what its WebSocket does; one that waits with
  -- dialling gives nothing and waits, and one that was closed gives an error.
  pub delayed-Readable :
      Readable (delayed_read S) size (delayed_holds size) delayed_ends delayed_calls
  unfolding delayed_read
  delayed-Readable = record {
    reads = λ p. read_by-Reads p.delayed p.under (Ws.read p.delayed) refl;
  }
