-- ===== src/Conn/Copy.antt =====
-- `io.Copy` between two connections, as the goroutines of `Serve` in handler.go call it.
pub mod Laws
use gost_plugin.Common.{
  Bytes, Option, [], codes, equal, if◌then◌else◌, length, ltb, none, some, suc, zero, ℕ, ◌+◌, ◌==◌,
  ◌∷◌,
}
use gost_plugin.Conn.{ReadResult, WriteResult}

-- How a copy stands: a call has not returned, or the copy has, with its error; `spent` is the end of
-- the fuel.
pub data CopyEnd : Type 0 where
  waiting : CopyEnd
  returned : Option Bytes → CopyEnd
  spent : CopyEnd

pub record Copied (C D : Type 0) : Type 0 where
  pub written : ℕ
  pub ending : CopyEnd
  pub src : C
  pub dst : D

abbrev pub eof : Bytes
eof = codes "EOF"

-- `if er != io.EOF { err = er }`
unfoldable pub unless_eof : Bytes → Option Bytes
unfolding equal
unless_eof err = if equal err eof then none else some err

-- The error of a `Write` of `nr` bytes that returned `nw` and `ew`: a count that is too large is
-- invalid, and one that is too small is short.
abbrev pub write_error : ℕ → ℕ → Option Bytes → Option Bytes
write_error nr nw (some err) = some err
write_error nr nw none =
    if ltb nr nw
    then some (codes "invalid write result")
    else if nw == nr
    then none
    else some (codes "short write")

abbrev pub counted : ℕ → ℕ → ℕ
counted nr nw = if ltb nr nw then 0 else nw

-- `if nr > 0`
abbrev pub put : {D : Type 0} → (Bytes → D → WriteResult D) → Bytes → D → WriteResult D
put write [] d = some (0, none, d)
put write (b ∷ bs) d = write (b ∷ bs) d

module _ {C D : Type 0} where
  -- Behind `dst.Write`, by the error of the write and that of the read; `again` is the rest of the
  -- loop.
  abbrev pub after_count :
      (C → D → Copied C D) → ℕ → ℕ → C → D → Option Bytes → Option Bytes → Copied C D
  after_count again nr nw c d (some err) er = record {
    written = counted nr nw;
    ending = returned (some err);
    src = c;
    dst = d;
  }
  after_count again nr nw c d none (some err) = record {
    written = nw;
    ending = returned (unless_eof err);
    src = c;
    dst = d;
  }
  after_count again nr nw c d none none =
      let rest = again c d in record rest { written = nw + rest.written }

  abbrev pub after_write :
      (C → D → Copied C D) → ℕ → Option Bytes → C → D → WriteResult D → Copied C D
  after_write again nr er c d none = record { written = 0; ending = waiting; src = c; dst = d }
  after_write again nr er c d (some (nw, ew, d')) =
      after_count again nr nw c d' (write_error nr nw ew) er

  -- Behind `src.Read`
  abbrev pub after_read :
      (Bytes → D → WriteResult D) → (C → D → Copied C D) → C → D → ReadResult C → Copied C D
  after_read write again c d none = record { written = 0; ending = waiting; src = c; dst = d }
  after_read write again c d (some (bs, er, c')) =
      after_write again (length bs) er c' d (put write bs d)

  -- The loop with a buffer of `size` bytes, on fuel.
  unfoldable pub copy :
      (ℕ → C → ReadResult C) → (Bytes → D → WriteResult D) → ℕ → ℕ → C → D → Copied C D
  unfolding unless_eof
  copy read write size zero c d = record { written = 0; ending = spent; src = c; dst = d }
  copy read write size (suc fuel) c d =
      after_read write (copy read write size fuel) c d (read size c)
