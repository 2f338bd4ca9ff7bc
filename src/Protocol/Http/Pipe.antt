-- ===== src/Protocol/Http/Pipe.antt =====
-- An HTTP/2 connection as a stream of bytes: that of the body it reads and the writer it writes.
use gost_plugin.Common.{
  All, Bool, Bytes, Option, ap, false, length, none, refl, some, true, ℕ, ◌++◌, ◌∙◌, ◌≡◌,
}
use gost_plugin.Conn.{ReadResult, Readable, Reads, Writable, WriteResult}
use gost_plugin.Protocol.Base64.Laws.{IsByte}
use gost_plugin.Protocol.Http.{HttpConn, is_closed, write}
use gost_plugin.Protocol.Http.Methods.{
  Exchange, HttpPipe, flushed, http_conn, http_read, http_write, http_written,
}

module _ {W : Type 0} (X : Exchange W) (size : ℕ) (holds : W → Bytes) (ends : W → Option Bytes)
    (calls : W → ℕ) (R : Readable X.read_body size holds ends calls) where
  http_read-Reads :
      (c : HttpConn) (w : W) (r : ReadResult W)
      → Reads holds ends calls size w r
      → Reads {C = HttpPipe W}
          (λ p. holds p.world)
          (λ p. ends p.world)
          (λ p. calls p.world)
          size
          (record { conn = c; world = w })
          (http_read c r)
  http_read-Reads c w none h = h
  http_read-Reads c w (some (bs, some err, w')) h = h
  http_read-Reads c w (some (bs, none, w')) h = h

  -- An HTTP/2 connection gives the bytes of its body.
  pub http-Readable :
      Readable (http_conn X).read size (λ p. holds p.world) (λ p. ends p.world) (λ p. calls p.world)
  unfolding http_conn
  http-Readable = record {
    reads = λ p. http_read-Reads p.conn p.world (X.read_body size p.world) (R.reads p.world);
  }

-- A flush that keeps what the writer was given.
pub record Flushes {W : Type 0} (X : Exchange W) (Open : W → Type 0) (given : W → Bytes)
    : Type 0 where
  pub flushes : (w : W) → Open w → Open (X.flush w) × (given (X.flush w) ≡ given w)

module _ {W : Type 0} (X : Exchange W) (Open : W → Type 0) (given : W → Bytes)
    (L : Writable X.write_body Open given) (F : Flushes X Open given) where
  abbrev pub HttpOpen : HttpPipe W → Type 0
  HttpOpen p = (p.conn.done ≡ false) × Open p.world

  abbrev pub http_given : HttpPipe W → Bytes
  http_given p = given p.world

  abbrev Wrote : Bytes → HttpPipe W → WriteResult (HttpPipe W) → Type 0
  Wrote b p r =
      (p' : HttpPipe W) × (r ≡ some (length b, none, p'))
      × HttpOpen p'
      × (given p'.world ≡ given p.world ++ b)

  after_flush :
      (b : Bytes) (c : HttpConn) (w w' : W)
      → c.done ≡ false
      → Open w'
      → given w' ≡ given w ++ b
      → (flusher : Bool)
      → (w'' : W) × (flushed X w' (length b, none, flusher) ≡ w'')
        × Open w''
        × (given w'' ≡ given w ++ b)
  after_flush b c w w' closed o g true =
      let (o', e) = F.flushes w' o in (X.flush w', refl, o', e ∙ g)
  after_flush b c w w' closed o g false = (w', refl, o, g)

  write-open :
      (c : HttpConn) (flusher : Bool) (n : ℕ)
      → c.done ≡ false
      → write c flusher n none ≡ (n, none, flusher)
  unfolding write is_closed
  write-open c flusher n h = rw (h) refl

  http_writes :
      (b : Bytes) (p : HttpPipe W) → HttpOpen p → All IsByte b → Wrote b p ((http_conn X).write b p)
  unfolding http_conn
  http_writes b p (closed, o) bytes =
      let (w', e, o', g) = L.writes b p.world o bytes in
      let (w'', f, o'', g') = after_flush b p.conn p.world w' closed o' g X.flusher in
      let same = write-open p.conn X.flusher (length b) closed in
      (
        record { conn = p.conn; world = w'' },
        ap (http_write X b p) closed
            ∙ ap (http_written X p.conn) e
            ∙ (λ i.
                some
                  ((same i).0, (same i).1, record { conn = p.conn; world = flushed X w' (same i) }))
            ∙ ap (λ x. some (length b, none, record { conn = p.conn; world = x })) f,
        (closed, o''),
        g',
      )

  -- An HTTP/2 connection that is not closed takes what its writer takes, flushed or not.
  pub http-Writable : Writable (http_conn X).write HttpOpen http_given
  http-Writable = record { writes = λ b p o bytes. http_writes b p o bytes }
