-- ===== src/Protocol/Gun/Laws.antt =====
-- A gun connection is the stream of bytes that its hunks spell.
use mathlib.Core.Path.{ap₂}
use gost_plugin.Common.{
  Bytes, List, Option, [], ap, arith, concat, drop, length, length-append, length-drop, none, refl,
  some, suc, zero, ℕ, ◌++◌, ◌+◌, ◌<◌, ◌∙◌, ◌∷◌, ◌≡◌, ◌≤◌,
}
use gost_plugin.Protocol.Address.{Address}
use gost_plugin.Protocol.Gun.{
  GunConn, ReadResult, Received, broken, drain, hunk, new_gun_connection, read,
}
use gost_plugin.Protocol.Stream.{length-take-le, result-eq, take-drop}

-- The bytes of all hunks, and of those before the first error; and that error.
abbrev pub payload : List Received → Bytes
payload [] = []
payload (hunk d ∷ inbox) = d ++ payload inbox
payload (broken err ∷ inbox) = payload inbox

abbrev pub before_error : List Received → Bytes
before_error [] = []
before_error (hunk d ∷ inbox) = d ++ before_error inbox
before_error (broken err ∷ inbox) = []

abbrev pub first_error : List Received → Option Bytes
first_error [] = none
first_error (hunk d ∷ inbox) = first_error inbox
first_error (broken err ∷ inbox) = some err

-- The buffer and the hunks to come.
abbrev pub pending : GunConn → List Received → Bytes
pending c inbox = c.rb ++ payload inbox

-- What a call of `Read` may do with the stream.
abbrev pub Reads : ℕ → GunConn → List Received → Option ReadResult → Type 0
Reads size c inbox none = (c.rb ≡ []) × (inbox ≡ [])
Reads size c inbox (some (bs, err, c', inbox')) =
    (pending c inbox ≡ bs ++ pending c' inbox') × (length bs ≤ size)

with_rb : GunConn → Bytes → GunConn
with_rb c rb = record c { rb = rb }

with_rb-Reads :
    (size : ℕ) (c : GunConn) (rb : Bytes) (inbox : List Received)
    → Reads size (with_rb c rb) inbox (read size (with_rb c rb) inbox)
unfolding read with_rb
with_rb-Reads size c [] [] = (refl, refl)
with_rb-Reads size c [] (hunk d ∷ inbox) = (take-drop size d (payload inbox), length-take-le size d)
with_rb-Reads size c [] (broken err ∷ inbox) = (refl, omega arith)
with_rb-Reads size c (b ∷ rb) inbox =
    (take-drop size (b ∷ rb) (payload inbox), length-take-le size (b ∷ rb))

-- A call of `Read` that returns gives what is next in the stream, at most as much as its buffer
-- takes, and leaves the rest of the stream; it waits only when nothing is left.
pub read_lem :
    (size : ℕ) (c : GunConn) (inbox : List Received) → Reads size c inbox (read size c inbox)
unfolding with_rb
read_lem size c inbox = with_rb-Reads size c c.rb inbox

length-drop-lt : (size : ℕ) (d : Bytes) → 0 < size → 0 < length d → length (drop size d) < length d
length-drop-lt size d h k = omega (arith, length-drop size d)

drain-with_rb :
    (fuel size : ℕ) (c : GunConn) (rb : Bytes) (inbox : List Received)
    → 0 < size
    → length rb + length (payload inbox) + length inbox < fuel
    → drain fuel size (with_rb c rb) inbox ≡ (rb ++ before_error inbox, first_error inbox)
unfolding drain read with_rb
drain-with_rb zero size c rb inbox pos h = absurd (omega arith)
drain-with_rb (suc fuel) size c [] [] pos h = refl
drain-with_rb (suc fuel) size c [] (hunk d ∷ inbox) pos h = result-eq size d _ _ _ (
    drain-with_rb fuel size c (drop size d) inbox pos
      (omega (arith, length-drop size d, length-append d (payload inbox))))
drain-with_rb (suc fuel) size c [] (broken err ∷ inbox) pos h = refl
drain-with_rb (suc fuel) size c (b ∷ rb) inbox pos h = result-eq size (b ∷ rb) _ _ _ (
    drain-with_rb fuel size c (drop size (b ∷ rb)) inbox pos
      (omega (arith, length-drop size (b ∷ rb))))

-- A reader with a buffer that is not empty, called until it fails or waits, gets the buffered bytes
-- and those of every hunk before the first error, and that error. So many calls are enough.
pub drain_lem :
    (fuel size : ℕ) (c : GunConn) (inbox : List Received)
    → 0 < size
    → length (pending c inbox) + length inbox < fuel
    → drain fuel size c inbox ≡ (c.rb ++ before_error inbox, first_error inbox)
unfolding with_rb
drain_lem fuel size c inbox pos h =
    drain-with_rb fuel size c c.rb inbox pos (omega (arith, length-append c.rb (payload inbox)))

-- The hunks that calls of `Write` send, if none fails.
abbrev pub sends : List Bytes → List Received
sends [] = []
sends (b ∷ bs) = hunk b ∷ sends bs

pub before_error-sends : (bs : List Bytes) → before_error (sends bs) ≡ concat bs
before_error-sends [] = refl
before_error-sends (b ∷ bs) = ap (λ x. b ++ x) (before_error-sends bs)

pub payload-sends : (bs : List Bytes) → payload (sends bs) ≡ concat bs
payload-sends [] = refl
payload-sends (b ∷ bs) = ap (λ x. b ++ x) (payload-sends bs)

pub first_error-sends : (bs : List Bytes) → first_error (sends bs) ≡ none
first_error-sends [] = refl
first_error-sends (b ∷ bs) = first_error-sends bs

pub length-sends : (bs : List Bytes) → length (sends bs) ≡ length bs
length-sends [] = refl
length-sends (b ∷ bs) = ap suc (length-sends bs)

-- Whatever pieces one end writes, the other end reads their concatenation, with any buffer.
pub drain-write :
    (fuel size : ℕ) (remote local : Option Address) (bs : List Bytes)
    → 0 < size
    → length (concat bs) + length bs < fuel
    → drain fuel size (new_gun_connection remote local) (sends bs) ≡ (concat bs, none)
unfolding new_gun_connection
drain-write fuel size remote local bs pos h =
    drain_lem fuel size _ (sends bs) pos
      (omega (arith, ap length (payload-sends bs), length-sends bs))
    ∙ ap₂ {C = Bytes × Option Bytes} (λ x y. (x, y)) (before_error-sends bs) (first_error-sends bs)
