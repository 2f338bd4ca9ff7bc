-- ===== src/Protocol/Quic.antt =====
-- gost/protocol/quic/conn.go: a stream of QUIC as a `net.Conn`. Package quic is foreign code.
pub mod Pipe
use gost_plugin.Common.{Bytes, Option, none, some, ℕ}
use gost_plugin.Conn.{Conn, ReadResult, WriteResult}
use gost_plugin.Protocol.Address.{Address}

-- A stream, on a state `W` of the outside world.
pub record Stream (W : Type 0) : Type 0 where
  pub read_stream : ℕ → W → ReadResult W
  pub write_stream : Bytes → W → WriteResult W
  pub close_stream : W → W × Option Bytes
  pub stream_deadline : ℕ → W → W × Option Bytes
  pub stream_read_deadline : ℕ → W → W × Option Bytes
  pub stream_write_deadline : ℕ → W → W × Option Bytes

-- `interConn`
pub record InterConn (W : Type 0) : Type 0 where
  pub stream : W
  pub local : Address
  pub remote : Address

-- `NewQUICConn`
unfoldable pub new_quic_conn : {W : Type 0} → W → Address → Address → InterConn W
new_quic_conn stream local remote = record { stream = stream; local = local; remote = remote }

module _ {W : Type 0} where
  abbrev pub on_stream : InterConn W → W × Option Bytes → InterConn W × Option Bytes
  on_stream c (w, err) = (record { stream = w; local = c.local; remote = c.remote }, err)

  abbrev pub stream_read : InterConn W → ReadResult W → ReadResult (InterConn W)
  stream_read c none = none
  stream_read c (some (bs, err, w)) =
      some (bs, err, record { stream = w; local = c.local; remote = c.remote })

  abbrev pub stream_written : InterConn W → WriteResult W → WriteResult (InterConn W)
  stream_written c none = none
  stream_written c (some (n, err, w)) =
      some (n, err, record { stream = w; local = c.local; remote = c.remote })

  unfoldable pub inter_conn : Stream W → Conn (InterConn W)
  inter_conn S = record {
    read = λ size c. stream_read c (S.read_stream size c.stream);
    write = λ b c. stream_written c (S.write_stream b c.stream);
    close = λ c. let r = on_stream c (S.close_stream c.stream) in some (r.1, r.0);
    local_addr = λ c. c.local;
    remote_addr = λ c. c.remote;
    set_deadline = λ t c. on_stream c (S.stream_deadline t c.stream);
    set_read_deadline = λ t c. on_stream c (S.stream_read_deadline t c.stream);
    set_write_deadline = λ t c. on_stream c (S.stream_write_deadline t c.stream);
  }
