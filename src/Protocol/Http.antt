-- ===== src/Protocol/Http.antt =====
-- gost/protocol/http/conn.go: the body of a request and a writer as a `net.Conn`.
pub mod Methods
pub mod Pipe
use gost_plugin.Common.{Bool, Bytes, Option, codes, false, if◌then◌else◌, none, some, true, ℕ, ◌+◌}
use gost_plugin.Protocol.Address.{Address, or_zero}

-- `done` says that the channel of that name is closed, and `closes` counts the calls of the closer.
pub record HttpConn : Type 0 where
  pub local : Address
  pub remote : Address
  pub done : Bool
  pub closes : ℕ

unfoldable pub new_http_connection : Option Address → Option Address → HttpConn
new_http_connection local remote = record {
  local = or_zero local;
  remote = or_zero remote;
  done = false;
  closes = 0;
}

unfoldable pub is_closed : HttpConn → Bool
is_closed c = c.done

-- The count and the error that `Write` returns, and whether it flushed.
abbrev pub WriteResult : Type 0
WriteResult = ℕ × Option Bytes × Bool

-- `Write`: `flusher` says that the writer is an `http.Flusher`, and the rest is what the writer's own
-- `Write` returned.
unfoldable pub write : HttpConn → Bool → ℕ → Option Bytes → WriteResult
unfolding is_closed
write c flusher n err =
    if is_closed c
    then (0, some (codes "io: read/write on closed pipe"), false)
    else elim err [ some e ↦ (0, some e, false) | none ↦ (n, none, flusher) ]

-- `Close`: the closer is called before the channel is closed; `none` is the panic of closing it twice.
unfoldable pub close : HttpConn → Option HttpConn
close c = if c.done then none else some (record c { done = true; closes = c.closes + 1 })
