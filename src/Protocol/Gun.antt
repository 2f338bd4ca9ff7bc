-- ===== src/Protocol/Gun.antt =====
-- gost/protocol/gun/conn.go: a gRPC stream of hunks as a `net.Conn`. The stream is foreign code: what
-- its `Recv` returns, call by call, is the `inbox`.
pub mod Laws
pub mod Methods
pub mod Pipe
pub mod Closing
use gost_plugin.Common.{
  Bool, Bytes, List, Option, [], drop, false, if◌then◌else◌, length, none, some, suc, take, true,
  zero, ℕ, ◌++◌, ◌∷◌,
}
use gost_plugin.Protocol.Address.{Address, or_zero}

-- What one call of `Recv` returns: a hunk, or an error by its text.
pub data Received : Type 0 where
  hunk : Bytes → Received
  broken : Bytes → Received

-- `done` says that the channel of that name is closed.
pub record GunConn : Type 0 where
  pub local : Address
  pub remote : Address
  pub rb : Bytes
  pub done : Bool

-- `peer.FromContext` gives the first address, if it knows one.
unfoldable pub new_gun_connection : Option Address → Option Address → GunConn
new_gun_connection remote local = record {
  local = or_zero local;
  remote = or_zero remote;
  rb = [];
  done = false;
}

-- The bytes that `Read` copied, its error, the connection and the calls of `Recv` still to come.
abbrev pub ReadResult : Type 0
ReadResult = Bytes × Option Bytes × GunConn × List Received

-- `n := copy(b, c.rb); c.rb = c.rb[n:]` for a buffer of `size` bytes
abbrev pub copy_out : ℕ → GunConn → List Received → ReadResult
copy_out size c inbox = (take size c.rb, none, record c { rb = drop size c.rb }, inbox)

-- A `Read` that finds its buffer empty.
unfoldable pub read_next : ℕ → GunConn → List Received → Option ReadResult
read_next size c [] = none
read_next size c (hunk d ∷ inbox) = some (copy_out size (record c { rb = d }) inbox)
read_next size c (broken err ∷ inbox) = some ([], some err, c, inbox)

-- `Read` with a buffer of `size` bytes; `none` while `Recv` has not returned.
unfoldable pub read : ℕ → GunConn → List Received → Option ReadResult
unfolding read_next
read size c inbox = elim c.rb [
  | [] ↦ read_next size c inbox
  | b ∷ rb ↦ some (copy_out size c inbox)
]

-- `Write` returns its count and error; `sent` is the error of `Send`.
unfoldable pub write : Option Bytes → Bytes → ℕ × Option Bytes
write none b = (length b, none)
write (some err) b = (0, some err)

-- `Close`; `none` is the panic of closing a closed channel.
unfoldable pub close : GunConn → Option GunConn
close c = if c.done then none else some (record c { done = true })

-- A reader that calls `Read` until it fails, as `io.Copy` does, on fuel: the bytes and the error. With
-- no error it waits for a call of `Recv` that has not returned.
unfoldable pub drain : ℕ → ℕ → GunConn → List Received → Bytes × Option Bytes
drain zero size c inbox = ([], none)
drain (suc fuel) size c inbox = elim (read size c inbox) [
  | none ↦ ([], none)
  | some (bs, some err, c', inbox') ↦ (bs, some err)
  | some (bs, none, c', inbox') ↦ let rest = drain fuel size c' inbox' in (bs ++ rest.0, rest.1)
]
