-- ===== src/Protocol/Websocket.antt =====
-- gost/protocol/websocket/conn.go: WebSocket messages as a `net.Conn`. The connection underneath is
-- foreign code: what its `ReadMessage` returns, call by call, is the `inbox`.
pub mod Laws
pub mod Methods
pub mod Pipe
use gost_plugin.Common.{
  Bytes, List, Option, [], drop, length, none, some, suc, take, zero, ℕ, ◌++◌, ◌∷◌,
}

-- What one call of `ReadMessage` returns: the bytes, and its error if it has one.
pub record Message : Type 0 where
  pub payload : Bytes
  pub error : Option Bytes

-- The bytes that `Read` copied, its error, the new `rb` and the calls still to come.
abbrev pub ReadResult : Type 0
ReadResult = Bytes × Option Bytes × Bytes × List Message

abbrev pub copy_out : ℕ → Bytes → Option Bytes → List Message → ReadResult
copy_out size rb err inbox = (take size rb, err, drop size rb, inbox)

unfoldable pub read_message : ℕ → List Message → Option ReadResult
read_message size [] = none
read_message size (m ∷ inbox) = some (copy_out size m.payload m.error inbox)

-- `Read` with a buffer of `size` bytes on the buffered bytes `rb`; `none` while `ReadMessage` has
-- not returned. What came with an error is copied all the same.
unfoldable pub read : ℕ → Bytes → List Message → Option ReadResult
unfolding read_message
read size [] inbox = read_message size inbox
read size (b ∷ rb) inbox = some (copy_out size (b ∷ rb) none inbox)

-- `Write` returns its count and error; `sent` is the error of `WriteMessage`.
unfoldable pub write : Option Bytes → Bytes → ℕ × Option Bytes
write sent b = (length b, sent)

-- A reader that calls `Read` until it fails, as `io.Copy` does, on fuel: the bytes and the error. With
-- no error it waits for a call of `ReadMessage` that has not returned.
unfoldable pub drain : ℕ → ℕ → Bytes → List Message → Bytes × Option Bytes
drain zero size rb inbox = ([], none)
drain (suc fuel) size rb inbox = elim (read size rb inbox) [
  | none ↦ ([], none)
  | some (bs, some err, rb', inbox') ↦ (bs, some err)
  | some (bs, none, rb', inbox') ↦ let rest = drain fuel size rb' inbox' in (bs ++ rest.0, rest.1)
]
