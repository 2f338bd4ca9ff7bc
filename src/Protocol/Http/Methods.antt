-- ===== src/Protocol/Http/Methods.antt =====
-- The methods of HttpConnection in gost/protocol/http/conn.go as those of a `net.Conn`.
use gost_plugin.Common.{Bool, Bytes, Option, false, none, some, true, ℕ}
use gost_plugin.Conn.{Conn, ReadResult, WriteResult}
use gost_plugin.Protocol.Http.{HttpConn, close, write}
use gost_plugin.Protocol.Http as Http

-- The reader, the writer and the closer that a connection is made of, on a state `W` of the outside
-- world; `flusher` says that the writer is an `http.Flusher`.
pub record Exchange (W : Type 0) : Type 0 where
  pub read_body : ℕ → W → ReadResult W
  pub write_body : Bytes → W → WriteResult W
  pub flusher : Bool
  pub flush : W → W
  pub close_body : W → W × Option Bytes

pub record HttpPipe (W : Type 0) : Type 0 where
  pub conn : HttpConn
  pub world : W

module _ {W : Type 0} where
  abbrev pub http_read : HttpConn → ReadResult W → ReadResult (HttpPipe W)
  http_read c none = none
  http_read c (some (bs, err, w)) = some (bs, err, record { conn = c; world = w })

  -- `f.Flush()` after a write that worked.
  abbrev pub flushed : Exchange W → W → Http.WriteResult → W
  flushed X w (n, err, true) = X.flush w
  flushed X w (n, err, false) = w

  -- Behind the writer's `Write`.
  abbrev pub http_written : Exchange W → HttpConn → WriteResult W → WriteResult (HttpPipe W)
  http_written X c none = none
  http_written X c (some (n, err, w)) =
      let r = write c X.flusher n err in some (r.0, r.1, record { conn = c; world = flushed X w r })

  -- The writer is not called on a closed connection.
  abbrev pub http_write : Exchange W → Bytes → HttpPipe W → Bool → WriteResult (HttpPipe W)
  http_write X b p true = let r = write p.conn X.flusher 0 none in some (r.0, r.1, p)
  http_write X b p false = http_written X p.conn (X.write_body b p.world)

  -- The closer's error, unless closing the channel panics.
  abbrev pub http_closed : W × Option Bytes → Option HttpConn → Option (Option Bytes × HttpPipe W)
  http_closed r none = none
  http_closed (w, err) (some c) = some (err, record { conn = c; world = w })

  -- The three deadlines do nothing.
  unfoldable pub http_conn : Exchange W → Conn (HttpPipe W)
  unfolding write close
  http_conn X = record {
    read = λ size p. http_read p.conn (X.read_body size p.world);
    write = λ b p. http_write X b p p.conn.done;
    close = λ p. http_closed (X.close_body p.world) (close p.conn);
    local_addr = λ p. p.conn.local;
    remote_addr = λ p. p.conn.remote;
    set_deadline = λ t p. (p, none);
    set_read_deadline = λ t p. (p, none);
    set_write_deadline = λ t p. (p, none);
  }
