-- ===== src/Protocol/Gun/Pipe.antt =====
-- A gun connection as a stream of bytes, read and written.
use gost_plugin.Common.{
  Bytes, List, Option, [], ap, arith, concat, length, length-append, length-drop, none, refl, some,
  ℕ, ◌++◌, ◌+◌, ◌<◌, ◌∙◌, ◌∷◌, ◌≡◌,
}
use gost_plugin.Conn.{Readable, Reads, Sends, Writable, concat-snoc}
use gost_plugin.Protocol.Gun.{GunConn, Received, broken, hunk, read, write}
use gost_plugin.Protocol.Gun.Laws.{before_error, first_error, payload}
use gost_plugin.Protocol.Gun.Methods.{GunPipe, gun_conn, gun_read, gun_written}
use gost_plugin.Protocol.Stream.{length-take-le, take-drop}

abbrev pub gun_calls : {W : Type 0} → GunPipe W → ℕ
gun_calls p = length p.conn.rb + length (payload p.inbox) + length p.inbox

abbrev pub gun_holds : {W : Type 0} → GunPipe W → Bytes
gun_holds p = p.conn.rb ++ before_error p.inbox

abbrev pub gun_ends : {W : Type 0} → GunPipe W → Option Bytes
gun_ends p = first_error p.inbox

abbrev gun_pipe : {W : Type 0} → GunConn → Bytes → List Received → W → GunPipe W
gun_pipe c rb inbox w = record { conn = record c { rb = rb }; inbox = inbox; world = w }

module _ {W : Type 0} (send : Bytes → W → W × Option Bytes) (size : ℕ) (pos : 0 < size) where
  gun_pipe-Reads :
      (c : GunConn) (rb : Bytes) (inbox : List Received) (w : W)
      → Reads gun_holds gun_ends gun_calls size
          (gun_pipe c rb inbox w)
          (gun_read (gun_pipe c rb inbox w) (read size (record c { rb = rb }) inbox))
  unfolding read
  gun_pipe-Reads c [] [] w = (refl, refl)
  gun_pipe-Reads c [] (hunk d ∷ inbox) w = (
    take-drop size d (before_error inbox),
    refl,
    length-take-le size d,
    omega (arith, length-drop size d, length-append d (payload inbox)),
  )
  gun_pipe-Reads c [] (broken err ∷ inbox) w = (refl, refl, omega arith)
  gun_pipe-Reads c (b ∷ rb) inbox w = (
    take-drop size (b ∷ rb) (before_error inbox),
    refl,
    length-take-le size (b ∷ rb),
    omega (arith, length-drop size (b ∷ rb)),
  )

  -- A gun connection gives the bytes of its hunks up to the first error.
  pub gun-Readable : Readable (gun_conn send).read size gun_holds gun_ends gun_calls
  unfolding gun_conn
  gun-Readable = record { reads = λ p. gun_pipe-Reads p.conn p.conn.rb p.inbox p.world }

abbrev pub OnWorld : {W : Type 0} → (W → Type 0) → GunPipe W → Type 0
OnWorld Open p = Open p.world

module _ {W : Type 0} (send : Bytes → W → W × Option Bytes) (Open : W → Type 0)
    (sent : W → List Bytes) (S : Sends send Open sent) where
  abbrev pub gun_given : GunPipe W → Bytes
  gun_given p = concat (sent p.world)

  gun_writes :
      (b : Bytes) (p : GunPipe W)
      → Open p.world
      → (p' : GunPipe W) × ((gun_conn send).write b p ≡ some (length b, none, p'))
        × Open p'.world
        × (gun_given p' ≡ gun_given p ++ b)
  unfolding gun_conn write
  gun_writes b p o =
      let (w', e, o', s) = S.sending b p.world o in
      (
        record { conn = p.conn; inbox = p.inbox; world = w' },
        ap (gun_written p b) e,
        o',
        ap concat s ∙ concat-snoc (sent p.world) b,
      )

  pub gun-Writable : Writable (gun_conn send).write (OnWorld Open) gun_given
  gun-Writable = record { writes = λ b p o bytes. gun_writes b p o }
