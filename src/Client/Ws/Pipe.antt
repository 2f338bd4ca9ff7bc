-- ===== src/Client/Ws/Pipe.antt =====
-- The connection that waits with dialling, as one that is written.
use gost_plugin.Args.Addr.{Options}
use gost_plugin.Client.Ws.{Delayed, Wire, sent, too_long, write}
use gost_plugin.Client.Ws.Laws.{
  IsValid, first_wire, fresh, stream, stream-first_wire, stream-sent, through, write-fresh,
}
use gost_plugin.Common.{
  All, Bool, Bytes, Option, [], false, length, none, refl, some, true, ℕ, ◌++◌, ◌≡◌,
}
use gost_plugin.Conn.{Writable, WriteResult}
use gost_plugin.Protocol.Base64.Laws.{IsByte}

abbrev pub delayed_write : Bytes → Delayed → WriteResult Delayed
delayed_write b d = write d none none b

-- Open, and dialled exactly if its channel is closed.
abbrev pub DelayedOpen : Delayed → Type 0
DelayedOpen d = (d.closed ≡ false) × IsValid d

-- What a server reads of it.
abbrev pub delayed_given : Delayed → Bytes
delayed_given d = elim d.conn [ none ↦ [] | some w ↦ stream w ]

abbrev delayed_of : Options → Bytes → Option Wire → ℕ → Bool → Bool → Delayed
delayed_of o url conn ed dialed closed = record {
  options = o;
  url = url;
  conn = conn;
  ed = ed;
  dialed = dialed;
  closed = closed;
}

delayed_writes :
    (b : Bytes) (o : Options) (url : Bytes) (conn : Option Wire) (ed : ℕ) (dialed closed : Bool)
    → DelayedOpen (delayed_of o url conn ed dialed closed)
    → All IsByte b
    → (d : Delayed) × (delayed_write b (delayed_of o url conn ed dialed closed)
        ≡ some (length b, none, d))
      × DelayedOpen d
      × (delayed_given d ≡ delayed_given (delayed_of o url conn ed dialed closed) ++ b)
unfolding write
delayed_writes b o url none ed false false h bytes = (
  through (fresh o url ed) (first_wire o url b (too_long ed b)),
  write-fresh o url ed b,
  (refl, refl),
  stream-first_wire o url b (too_long ed b) bytes,
)
delayed_writes b o url (some w) ed true false h bytes =
    (through (fresh o url ed) (sent none b w), refl, (refl, refl), stream-sent b w)
delayed_writes b o url none ed true false (h, v) bytes = absurd (cc)
delayed_writes b o url (some w) ed false false (h, v) bytes = absurd (cc)
delayed_writes b o url conn ed dialed true (h, v) bytes = absurd (cc)

-- A connection that waits with dialling takes all that is written to it, if nothing fails: the first
-- bytes in its handshake or behind it.
pub delayed-Writable : Writable delayed_write DelayedOpen delayed_given
delayed-Writable = record {
  writes = λ b d o bytes. delayed_writes b d.options d.url d.conn d.ed d.dialed d.closed o bytes;
}
