-- ===== src/Protocol/Quic/Pipe.antt =====
-- A connection over QUIC as a stream of bytes: that of its stream.
use gost_plugin.Common.{All, Bytes, Option, ap, length, none, some, ℕ, ◌++◌, ◌≡◌}
use gost_plugin.Conn.{ReadResult, Readable, Reads, Writable}
use gost_plugin.Protocol.Address.{Address}
use gost_plugin.Protocol.Base64.Laws.{IsByte}
use gost_plugin.Protocol.Quic.{InterConn, Stream, inter_conn, stream_read, stream_written}

abbrev of_stream : {W : Type 0} → Address → Address → W → InterConn W
of_stream local remote w = record { stream = w; local = local; remote = remote }

module _ {W : Type 0} (S : Stream W) (size : ℕ) (holds : W → Bytes) (ends : W → Option Bytes)
    (calls : W → ℕ) (R : Readable S.read_stream size holds ends calls) where
  stream_read-Reads :
      (c : InterConn W) (r : ReadResult W)
      → Reads holds ends calls size c.stream r
      → Reads {C = InterConn W}
          (λ c. holds c.stream)
          (λ c. ends c.stream)
          (λ c. calls c.stream)
          size
          c
          (stream_read c r)
  stream_read-Reads c none h = h
  stream_read-Reads c (some (bs, some err, w)) h = h
  stream_read-Reads c (some (bs, none, w)) h = h

  -- A connection over QUIC gives the bytes of its stream.
  pub quic-Readable :
      Readable
        (inter_conn S).read
        size
        (λ c. holds c.stream)
        (λ c. ends c.stream)
        (λ c. calls c.stream)
  unfolding inter_conn
  quic-Readable = record {
    reads = λ c. stream_read-Reads c (S.read_stream size c.stream) (R.reads c.stream);
  }

module _ {W : Type 0} (S : Stream W) (Open : W → Type 0) (given : W → Bytes)
    (L : Writable S.write_stream Open given) where
  abbrev pub QuicOpen : InterConn W → Type 0
  QuicOpen c = Open c.stream

  abbrev pub quic_given : InterConn W → Bytes
  quic_given c = given c.stream

  quic_writes :
      (b : Bytes) (c : InterConn W)
      → Open c.stream
      → All IsByte b
      → (c' : InterConn W) × ((inter_conn S).write b c ≡ some (length b, none, c'))
        × Open c'.stream
        × (given c'.stream ≡ given c.stream ++ b)
  unfolding inter_conn
  quic_writes b c o bytes =
      let (w, e, o', g) = L.writes b c.stream o bytes in
      (of_stream c.local c.remote w, ap (stream_written c) e, o', g)

  -- A connection over QUIC takes what its stream takes.
  pub quic-Writable : Writable (inter_conn S).write QuicOpen quic_given
  quic-Writable = record { writes = λ b c o bytes. quic_writes b c o bytes }
