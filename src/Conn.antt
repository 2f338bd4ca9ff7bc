-- ===== src/Conn.antt =====
-- `net.Conn`, which every connection of gost/protocol and gost/proxy implements: its methods as
-- operations on a state that holds the connection and what stands behind it, and what a reader and
-- a writer rely on.
pub mod Copy
use gost_plugin.Common.{
  All, Bytes, List, Option, [], ap, append-nil, concat, concat-append, length, none, some, ℕ, ◌++◌,
  ◌<◌, ◌∙◌, ◌∷◌, ◌≡◌, ◌≤◌,
}
use gost_plugin.Protocol.Address.{Address}
use gost_plugin.Protocol.Base64.Laws.{IsByte}

-- The bytes that were copied, the error, and the new state; `none` while the call has not returned.
abbrev pub ReadResult : Type 0 → Type 0
ReadResult C = Option (Bytes × Option Bytes × C)

-- The count, the error, and the new state; `none` while the call has not returned, or if it panics.
abbrev pub WriteResult : Type 0 → Type 0
WriteResult C = Option (ℕ × Option Bytes × C)

-- A time limit is a number; `read` takes the size of its buffer.
pub record Conn (C : Type 0) : Type 0 where
  pub read : ℕ → C → ReadResult C
  pub write : Bytes → C → WriteResult C
  pub close : C → Option (Option Bytes × C)
  pub local_addr : C → Address
  pub remote_addr : C → Address
  pub set_deadline : ℕ → C → C × Option Bytes
  pub set_read_deadline : ℕ → C → C × Option Bytes
  pub set_write_deadline : ℕ → C → C × Option Bytes

-- What a call of `Read` does with the bytes that a connection holds before the error that ends them,
-- if one does: it gives the next of them, and waits only when none is left and no error comes.
abbrev pub Reads :
    {C : Type 0} → (C → Bytes) → (C → Option Bytes) → (C → ℕ) → ℕ → C → ReadResult C → Type 0
Reads holds ends calls size c none = (holds c ≡ []) × (ends c ≡ none)
Reads holds ends calls size c (some (bs, some err, c')) =
    (holds c ≡ bs) × (ends c ≡ some err) × (length bs ≤ size)
Reads holds ends calls size c (some (bs, none, c')) =
    (holds c ≡ bs ++ holds c') × (ends c ≡ ends c') × (length bs ≤ size) × (calls c' < calls c)

-- A connection as a stream of bytes, for buffers of one size; `calls` bounds the calls that return.
pub record Readable {C : Type 0} (read : ℕ → C → ReadResult C) (size : ℕ) (holds : C → Bytes)
    (ends : C → Option Bytes) (calls : C → ℕ) : Type 0 where
  pub reads : (c : C) → Reads holds ends calls size c (read size c)

-- A connection that takes every byte while it is open; `given` is what it has taken.
pub record Writable {C : Type 0} (write : Bytes → C → WriteResult C) (Open : C → Type 0)
    (given : C → Bytes) : Type 0 where
  pub writes :
      (b : Bytes) (c : C)
      → Open c
      → All IsByte b
      → (c' : C) × (write b c ≡ some (length b, none, c')) × Open c' × (given c' ≡ given c ++ b)

-- A call that sends one message after another while it can: `sent` is what it has sent.
pub record Sends {W : Type 0} (send : Bytes → W → W × Option Bytes) (Open : W → Type 0)
    (sent : W → List Bytes) : Type 0 where
  pub sending :
      (b : Bytes) (w : W)
      → Open w
      → (w' : W) × (send b w ≡ (w', none)) × Open w' × (sent w' ≡ sent w ++ b ∷ [])

pub concat-snoc : (bs : List Bytes) (b : Bytes) → concat (bs ++ b ∷ []) ≡ concat bs ++ b
concat-snoc bs b = concat-append bs (b ∷ []) ∙ ap (λ x. concat bs ++ x) (append-nil b)
