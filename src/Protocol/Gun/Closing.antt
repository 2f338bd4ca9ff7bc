-- ===== src/Protocol/Gun/Closing.antt =====
-- What `Close` of a gun connection does to the stream.
use gost_plugin.Common.{Bytes, List, Option, [], false, none, refl, some, true, ℕ, ◌∷◌, ◌≡◌}
use gost_plugin.Conn.{ReadResult, WriteResult}
use gost_plugin.Protocol.Gun.{GunConn, Received, broken, close, hunk, read}
use gost_plugin.Protocol.Gun.Methods.{GunPipe, gun_closed, gun_conn, gun_read}

-- What a caller sees of a call, and what the call leaves of the stream.
abbrev pub ReadSeen : Type 0 → Type 0
ReadSeen W = Option (Bytes × Option Bytes × List Received × W)

abbrev pub read_seen : {W : Type 0} → ReadResult (GunPipe W) → ReadSeen W
read_seen none = none
read_seen (some (bs, err, p)) = some (bs, err, p.inbox, p.world)

abbrev pub written_seen :
    {W : Type 0} → WriteResult (GunPipe W) → Option (ℕ × Option Bytes × List Received × W)
written_seen none = none
written_seen (some (n, err, p)) = some (n, err, p.inbox, p.world)

closed_pipe : {W : Type 0} → GunPipe W → GunPipe W
closed_pipe p = record p { conn = record p.conn { done = true } }

gun_closed-open :
    {W : Type 0} (p : GunPipe W)
    → p.conn.done ≡ false
    → gun_closed p (close p.conn) ≡ some (none, closed_pipe p)
unfolding close closed_pipe
gun_closed-open p e = rw (e) refl

read-closed :
    {W : Type 0} (p : GunPipe W) (size : ℕ) (rb : Bytes) (inbox : List Received)
    → let c : GunConn = record p.conn { rb = rb } in
      let d : GunConn = record c { done = true } in
      read_seen (gun_read p (read size d inbox)) ≡ read_seen (gun_read p (read size c inbox))
unfolding read
read-closed p size [] [] = refl
read-closed p size [] (hunk d ∷ inbox) = refl
read-closed p size [] (broken err ∷ inbox) = refl
read-closed p size (b ∷ rb) inbox = refl

-- Every `Read` and every `Write` does and returns the same on both connections.
abbrev pub SameStream :
    {W : Type 0} → (Bytes → W → W × Option Bytes) → GunPipe W → GunPipe W → Type 0
SameStream send p q =
    ((size : ℕ) → read_seen ((gun_conn send).read size q) ≡ read_seen ((gun_conn send).read size p))
    × ((b : Bytes)
        → written_seen ((gun_conn send).write b q) ≡ written_seen ((gun_conn send).write b p))

-- `Close` of an open connection returns no error and leaves the stream as it is: a `Read` or a `Write`
-- behind it does and returns just what it would have without it. A second `Close` panics.
pub close-SameStream :
    {W : Type 0} (send : Bytes → W → W × Option Bytes) (p : GunPipe W)
    → p.conn.done ≡ false
    → (q : GunPipe W) × ((gun_conn send).close p ≡ some (none, q))
      × SameStream send p q
      × ((gun_conn send).close q ≡ none)
unfolding gun_conn close closed_pipe
close-SameStream send p e = (
  closed_pipe p,
  gun_closed-open p e,
  ((λ size. read-closed p size p.conn.rb p.inbox), (λ b. refl)),
  refl,
)
