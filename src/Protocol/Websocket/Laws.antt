-- ===== src/Protocol/Websocket/Laws.antt =====
-- A WebSocket connection is the stream of bytes that its messages spell.
use gost_plugin.Common.{
  Bytes, List, Option, [], arith, drop, length, length-append, length-drop, none, refl, some, suc,
  take, zero, ℕ, ◌++◌, ◌+◌, ◌<◌, ◌∷◌, ◌≡◌, ◌≤◌,
}
use gost_plugin.Protocol.Stream.{length-take-le, result-eq, take-drop}
use gost_plugin.Protocol.Websocket.{Message, ReadResult, drain, read}

-- The bytes of all messages.
abbrev pub payloads : List Message → Bytes
payloads [] = []
payloads (m ∷ inbox) = m.payload ++ payloads inbox

abbrev pub Reads : ℕ → Bytes → List Message → Option ReadResult → Type 0
Reads size rb inbox none = (rb ≡ []) × (inbox ≡ [])
Reads size rb inbox (some (bs, err, rb', inbox')) =
    (rb ++ payloads inbox ≡ bs ++ (rb' ++ payloads inbox')) × (length bs ≤ size)

-- A call of `Read` that returns gives what is next in the stream, at most as much as its buffer
-- takes, and leaves the rest of the stream, also when it returns an error.
pub read-Reads :
    (size : ℕ) (rb : Bytes) (inbox : List Message) → Reads size rb inbox (read size rb inbox)
unfolding read
read-Reads size [] [] = (refl, refl)
read-Reads size [] (m ∷ inbox) =
    (take-drop size m.payload (payloads inbox), length-take-le size m.payload)
read-Reads size (b ∷ rb) inbox =
    (take-drop size (b ∷ rb) (payloads inbox), length-take-le size (b ∷ rb))

-- What a reader gets: whole messages up to the first that came with an error, and of that one as
-- much as one buffer takes.
abbrev pub readable : ℕ → List Message → Bytes
readable size [] = []
readable size (m ∷ inbox) = elim m.error [
  | none ↦ m.payload ++ readable size inbox
  | some err ↦ take size m.payload
]

abbrev pub first_error : List Message → Option Bytes
first_error [] = none
first_error (m ∷ inbox) = elim m.error [ none ↦ first_error inbox | some err ↦ some err ]

abbrev message : Bytes → Option Bytes → Message
message payload error = record { payload = payload; error = error }

drain-message :
    (fuel size : ℕ) (payload : Bytes) (error : Option Bytes) (inbox : List Message)
    → (error ≡ none
        → drain fuel size (drop size payload) inbox
          ≡ (drop size payload ++ readable size inbox, first_error inbox))
    → drain (suc fuel) size [] (message payload error ∷ inbox)
      ≡ (readable size (message payload error ∷ inbox), first_error (message payload error ∷ inbox))
unfolding drain read
drain-message fuel size payload none inbox ih = result-eq size payload _ _ _ (ih refl)
drain-message fuel size payload (some err) inbox ih = refl

-- A reader with a buffer that is not empty gets the buffered bytes, those of every message before
-- the first error, and of the message that came with the error one buffer. So many calls are enough.
pub drain-readable :
    (fuel size : ℕ) (rb : Bytes) (inbox : List Message)
    → 0 < size
    → length rb + length (payloads inbox) + length inbox < fuel
    → drain fuel size rb inbox ≡ (rb ++ readable size inbox, first_error inbox)
unfolding drain read
drain-readable zero size rb inbox pos h = absurd (omega arith)
drain-readable (suc fuel) size [] [] pos h = refl
drain-readable (suc fuel) size [] (m ∷ inbox) pos h =
    drain-message fuel size m.payload m.error inbox λ _.
      drain-readable fuel size (drop size m.payload) inbox pos
        (omega (arith, length-drop size m.payload, length-append m.payload (payloads inbox)))
drain-readable (suc fuel) size (b ∷ rb) inbox pos h = result-eq size (b ∷ rb) _ _ _ (
    drain-readable fuel size (drop size (b ∷ rb)) inbox pos
      (omega (arith, length-drop size (b ∷ rb))))
