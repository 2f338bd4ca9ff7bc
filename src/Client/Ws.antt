-- ===== src/Client/Ws.antt =====
-- gost/proxy/client/ws.go: the dialled WebSocket, and the connection that waits with dialling for
-- its first bytes, to send them in the handshake. gorilla/websocket is foreign code: whether its
-- `Dial` and `WriteMessage` fail is an input.
pub mod Laws
pub mod Early
pub mod Waiting
pub mod Pipe
pub mod Reader
use gost_plugin.Args.Addr.{Options, get_remote_addr}
use gost_plugin.Common.{
  Bool, Bytes, List, Option, [], codes, false, has_prefix, if◌then◌else◌, length, ltb, none, not,
  some, true, ℕ, ◌++◌, ◌^◌, ◌∷◌,
}
use gost_plugin.Protocol.Base64.{encode}

-- What `streamWebsocketConn` sets up for `dialer.Dial`: the dialer's fields that depend on the
-- options, whether TLS is left to the transporter, and the header.
pub record Handshake : Type 0 where
  pub url : Bytes
  pub compression : Bool
  pub tls_by_transporter : Bool
  pub user_agent : Bytes
  pub host : Option Bytes
  pub protocol : Option Bytes

abbrev pub user_agent_text : Bytes
user_agent_text = codes "Chrome/78.0.3904.106"

-- `if s != "" { header.Set(…, s) }`
abbrev pub unless_empty : Bytes → Option Bytes
unless_empty [] = none
unless_empty (c ∷ s) = some (c ∷ s)

-- `if ed != nil { header.Set("Sec-WebSocket-Protocol", …) }`
abbrev pub early_header : Option Bytes → Option Bytes
early_header none = none
early_header (some ed) = some (encode ed)

unfoldable pub handshake : Options → Bytes → Option Bytes → Handshake
unfolding has_prefix encode
handshake o url ed = record {
  url = url;
  compression = not o.nocomp;
  tls_by_transporter = has_prefix (codes "wss") url;
  user_agent = user_agent_text;
  host = unless_empty o.hostname;
  protocol = early_header ed;
}

-- The URL that `DialConn` of WSTransporter and of WSSTransporter builds.
unfoldable pub ws_url : Options → Bytes
unfolding get_remote_addr
ws_url o = codes "wss://" ++ (get_remote_addr o ++ o.path)

-- A WebSocket connection as the program sees it: the handshake, the messages written, and whether it
-- was closed.
pub record Wire : Type 0 where
  pub opened_by : Handshake
  pub messages : List Bytes
  pub closed : Bool

abbrev pub opened : Handshake → Wire
opened h = record { opened_by = h; messages = []; closed = false }

-- `WriteMessage` with its error, by `websocketConn.Write`: the count is that of the buffer either way.
abbrev pub sent : Option Bytes → Bytes → Wire → Wire
sent none b w = record w { messages = w.messages ++ b ∷ [] }
sent (some err) b w = w

-- `delayDialConn`; `dialed` says that the channel of that name is closed.
pub record Delayed : Type 0 where
  pub options : Options
  pub url : Bytes
  pub conn : Option Wire
  pub ed : ℕ
  pub dialed : Bool
  pub closed : Bool

abbrev pub closed_pipe : Bytes
closed_pipe = codes "io: read/write on closed pipe"

-- `len(b) > int(d.ed)`: an `ed` of 2^63 or more is negative as an `int`.
abbrev pub too_long : ℕ → Bytes → Bool
too_long ed b = if ltb ed (2 ^ 63) then ltb ed (length b) else true

abbrev pub early : ℕ → Bytes → Option Bytes
early ed b = if too_long ed b then none else some b

-- The count, the error and the new state; `none` is the panic of closing `dialed` twice.
abbrev pub Written : Type 0
Written = Option (ℕ × Option Bytes × Delayed)

-- The last line of `Write`, on a connection that has been dialled.
abbrev pub write_through : Delayed → Wire → Option Bytes → Bytes → Written
write_through d w err b = some (length b, err, record d { conn = some (sent err b w) })

-- Behind a dial that succeeded.
abbrev pub write_dialed : Delayed → Option Bytes → Option Bytes → Bytes → Written
write_dialed d err ed b =
    let w = opened (handshake d.options d.url ed) in
    let d' = record d { conn = some w; dialed = true } in
    if d.dialed
    then none
    else elim ed [ some e ↦ some (length e, none, d') | none ↦ write_through d' w err b ]

-- `Close`
unfoldable pub close : Delayed → Delayed
close d = record d {
  closed = true;
  conn = elim d.conn [ none ↦ none | some w ↦ some (record w { closed = true }) ];
}

-- `Write` of a buffer that is not the nil slice; `dial` and `err` are the errors of the calls of `Dial`
-- and `WriteMessage`, where it makes them.
unfoldable pub write : Delayed → Option Bytes → Option Bytes → Bytes → Written
unfolding close handshake
write d dial err b = if d.closed then some (0, some closed_pipe, d) else elim d.conn [
  | some w ↦ write_through d w err b
  | none ↦ elim dial [
    | some e ↦ some (0, some e, close d)
    | none ↦ write_dialed d err (early d.ed b) b
  ]
]

-- `Read` waits for `dialed`, fails on a closed connection, and otherwise reads from the connection.
pub data Reading : Type 0 where
  waits fails reads : Reading

unfoldable pub read : Delayed → Reading
read d = if d.dialed then (if d.closed then fails else reads) else waits

-- `websocketClientConn`: a connection that is dialled at once, or one that waits.
pub data ClientConn : Type 0 where
  dialed_now : Wire → ClientConn
  delayed : Delayed → ClientConn
  dial_failed : Bytes → ClientConn

unfoldable pub websocket_client_conn : Options → Bytes → Option Bytes → ClientConn
unfolding handshake
websocket_client_conn o url dial =
    if ltb 0 o.ed
    then delayed
        (record { options = o; url = url; conn = none; ed = o.ed; dialed = false; closed = false })
    else elim dial [
      | some err ↦ dial_failed err
      | none ↦ dialed_now (opened (handshake o url none))
    ]

-- `DialConn` of both transporters.
unfoldable pub dial_conn : Options → Option Bytes → ClientConn
unfolding websocket_client_conn ws_url
dial_conn o dial = websocket_client_conn o (ws_url o) dial
