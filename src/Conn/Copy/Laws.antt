-- ===== src/Conn/Copy/Laws.antt =====
-- A copy carries over all that its source holds.
use gost_plugin.Common.{
  All, Bytes, Option, [], ap, append-nil, append_assoc, arith, length, length-append, none, refl,
  some, subst, suc, sym, zero, ℕ, ◌++◌, ◌<◌, ◌∙◌, ◌∷◌, ◌≡◌,
}
use gost_plugin.Conn.{ReadResult, Readable, Reads, Writable, WriteResult}
use gost_plugin.Conn.Copy.{
  Copied, CopyEnd, after_count, after_read, after_write, copy, put, returned, unless_eof, waiting,
  write_error,
}
use gost_plugin.Protocol.Base64.Laws.{IsByte}

-- How the copy ends, by the error that ends the source.
abbrev pub ending_of : Option Bytes → CopyEnd
ending_of none = waiting
ending_of (some err) = returned (unless_eof err)

-- What was copied: `bs` is what the source held, and `err` the error that ended it.
abbrev pub Copies :
    {C D : Type 0} → (D → Type 0) → (D → Bytes) → Bytes → Option Bytes → D → Copied C D → Type 0
Copies Open given bs err d r =
    (r.written ≡ length bs)
    × (given r.dst ≡ given d ++ bs)
    × (r.ending ≡ ending_of err)
    × Open r.dst

write_error_self : (n : ℕ) → write_error n n none ≡ none
write_error_self n = ground arith

All-append_left : (xs ys : Bytes) → All IsByte (xs ++ ys) → All IsByte xs
All-append_left [] ys h = tt
All-append_left (x ∷ xs) ys (p, h) = (p, All-append_left xs ys h)

All-append_right : (xs ys : Bytes) → All IsByte (xs ++ ys) → All IsByte ys
All-append_right [] ys h = h
All-append_right (x ∷ xs) ys (p, h) = All-append_right xs ys h

module _ {D : Type 0} (write : Bytes → D → WriteResult D) (Open : D → Type 0) (given : D → Bytes)
    (W : Writable write Open given) where
  -- A write of what was read takes all of it; nothing is written for no bytes.
  put-writes :
      (bs : Bytes) (d : D)
      → Open d
      → All IsByte bs
      → (d' : D) × (put write bs d ≡ some (length bs, none, d'))
        × Open d'
        × (given d' ≡ given d ++ bs)
  put-writes [] d h bytes = (d, refl, h, sym (append-nil (given d)))
  put-writes (b ∷ bs) d h bytes = W.writes (b ∷ bs) d h bytes

-- The count of a write that took all of `bs` is no error.
after_write-all :
    {C D : Type 0} (P : Copied C D → Type 0) (again : C → D → Copied C D) (bs : Bytes)
    (er : Option Bytes) (c : C) (d d' : D) (w : WriteResult D)
    → w ≡ some (length bs, none, d')
    → P (after_count again (length bs) (length bs) c d' none er)
    → P (after_write again (length bs) er c d w)
after_write-all P again bs er c d d' w e h =
    subst (λ x. P (after_write again (length bs) er c d x)) (sym e)
      (subst (λ x. P (after_count again (length bs) (length bs) c d' x er))
        (sym (write_error_self (length bs))) h)

module _ {C D : Type 0} (read : ℕ → C → ReadResult C) (write : Bytes → D → WriteResult D)
    (Open : D → Type 0) (given : D → Bytes) (W : Writable write Open given) (size : ℕ)
    (holds : C → Bytes) (ends : C → Option Bytes) (calls : C → ℕ)
    (R : Readable read size holds ends calls) where
  abbrev Goes : (C → D → Copied C D) → ℕ → Type 0
  Goes again fuel =
      (c : C) (d : D)
      → Open d
      → All IsByte (holds c)
      → calls c < fuel
      → Copies Open given (holds c) (ends c) d (again c d)

  -- One round, if the rest of the loop does what is claimed.
  round :
      (again : C → D → Copied C D) (fuel : ℕ) (c : C) (d : D) (r : ReadResult C)
      → Goes again fuel
      → Reads holds ends calls size c r
      → Open d
      → All IsByte (holds c)
      → calls c < suc fuel
      → Copies Open given (holds c) (ends c) d (after_read write again c d r)
  round again fuel c d none ih (h, e) o bytes lt = (
    ap length (sym h),
    sym (append-nil _) ∙ ap (λ x. given d ++ x) (sym h),
    ap ending_of (sym e),
    o,
  )
  round again fuel c d (some (bs, some err, c')) ih (h, e, len) o bytes lt =
      let (d', w, o', g) =
        put-writes write Open given W bs d o (subst (λ x. All IsByte x) h bytes) in
      after_write-all (Copies Open given (holds c) (ends c) d) again bs (some err) c' d d' _ w
        (ap length (sym h), g ∙ ap (λ x. given d ++ x) (sym h), ap ending_of (sym e), o')
  round again fuel c d (some (bs, none, c')) ih (h, e, len, less) o bytes lt =
      let all : All IsByte (bs ++ holds c') = subst (λ x. All IsByte x) h bytes in
      let (d', w, o', g) = put-writes write Open given W bs d o (All-append_left bs _ all) in
      let (n, g', end, o'') = ih c' d' o' (All-append_right bs _ all) (omega arith) in
      after_write-all (Copies Open given (holds c) (ends c) d) again bs none c' d d' _ w (
        omega (arith, ap length h, length-append bs (holds c')),
        g'
            ∙ ap (λ x. x ++ holds c') g
            ∙ append_assoc (given d) bs (holds c')
            ∙ ap (λ x. given d ++ x) (sym h),
        end ∙ ap ending_of (sym e),
        o'',
      )

  -- A copy from a connection that holds bytes to one that is open: if the fuel exceeds the calls of
  -- `Read`, all the bytes are given to the destination, in order, the count is theirs, and the copy
  -- returns the error that ends the source, which is none at the end of the file, or waits with it.
  pub copy_lem :
      (fuel : ℕ) (c : C) (d : D)
      → Open d
      → All IsByte (holds c)
      → calls c < fuel
      → Copies Open given (holds c) (ends c) d (copy read write size fuel c d)
  unfolding copy
  copy_lem zero c d o bytes lt = absurd (omega arith)
  copy_lem (suc fuel) c d o bytes lt =
      round (copy read write size fuel) fuel c d (read size c) (copy_lem fuel) (R.reads c) o bytes
        lt
