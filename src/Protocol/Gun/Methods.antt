-- ===== src/Protocol/Gun/Methods.antt =====
-- The methods of GunConnection in gost/protocol/gun/conn.go as those of a `net.Conn`.
use gost_plugin.Common.{Bytes, List, Option, none, some}
use gost_plugin.Conn.{Conn, ReadResult, WriteResult}
use gost_plugin.Protocol.Gun.{GunConn, Received, close, read, write}
use gost_plugin.Protocol.Gun as Gun

-- A connection with the calls of `Recv` still to come, on a state `W` of the outside world.
pub record GunPipe (W : Type 0) : Type 0 where
  pub conn : GunConn
  pub inbox : List Received
  pub world : W

module _ {W : Type 0} where
  abbrev pub gun_read : GunPipe W → Option Gun.ReadResult → ReadResult (GunPipe W)
  gun_read p none = none
  gun_read p (some (bs, err, c, inbox)) =
      some (bs, err, record { conn = c; inbox = inbox; world = p.world })

  abbrev pub gun_written : GunPipe W → Bytes → W × Option Bytes → WriteResult (GunPipe W)
  gun_written p b (w, err) =
      let r = write err b in some (r.0, r.1, record { conn = p.conn; inbox = p.inbox; world = w })

  abbrev pub gun_closed : GunPipe W → Option GunConn → Option (Option Bytes × GunPipe W)
  gun_closed p none = none
  gun_closed p (some c) = some (none, record { conn = c; inbox = p.inbox; world = p.world })

  -- `send` is `Send` of the stream. The three deadlines do nothing.
  unfoldable pub gun_conn : (Bytes → W → W × Option Bytes) → Conn (GunPipe W)
  unfolding read write close
  gun_conn send = record {
    read = λ size p. gun_read p (read size p.conn p.inbox);
    write = λ b p. gun_written p b (send b p.world);
    close = λ p. gun_closed p (close p.conn);
    local_addr = λ p. p.conn.local;
    remote_addr = λ p. p.conn.remote;
    set_deadline = λ t p. (p, none);
    set_read_deadline = λ t p. (p, none);
    set_write_deadline = λ t p. (p, none);
  }
