-- ===== src/Client/Ws/Laws.antt =====
-- Early data: what the server finds in the handshake and in the messages is what was written.
use gost_plugin.Args.Addr.{Options}
use gost_plugin.Client.Ws.{
  Delayed, Wire, Written, close, early, early_header, handshake, opened, read, sent, too_long,
  waits, write, write_dialed,
}
use gost_plugin.Common.{
  All, Bool, Bytes, List, Option, [], ap, append-nil, append_assoc, arith, concat, concat-append,
  false, if◌then◌else◌, length, none, refl, some, sym, true, ℕ, ◌++◌, ◌∙◌, ◌∷◌, ◌≡◌,
}
use gost_plugin.Protocol.Base64.{decode}
use gost_plugin.Protocol.Base64.Laws.{IsByte, decode-encode}

-- What a server reads from the connection: the header, decoded as the server decodes it, and then
-- the messages.
abbrev pub early_bytes : Option Bytes → Bytes
early_bytes none = []
early_bytes (some s) = (decode s).0

abbrev pub stream : Wire → Bytes
stream w = early_bytes w.opened_by.protocol ++ concat w.messages

-- The channel `dialed` is closed exactly when there is a connection.
abbrev pub IsValid : Delayed → Type 0
IsValid d = elim d.conn [ none ↦ d.dialed ≡ false | some w ↦ d.dialed ≡ true ]

abbrev pub Keeps : Written → Type 0
Keeps none = ⊥
Keeps (some (n, e, d)) = IsValid d

close-IsValid : (d : Delayed) → IsValid d → IsValid (close d)
unfolding close
close-IsValid d v = ground arith

-- `Write` never closes `dialed` twice, whatever fails, and keeps the invariant.
pub write-IsValid :
    (d : Delayed) (dial err : Option Bytes) (b : Bytes) → IsValid d → Keeps (write d dial err b)
unfolding write
write-IsValid d dial err b v = ground arith

-- Bytes are written one buffer after another, with no failure.
unfoldable pub write_all : Delayed → List Bytes → Option Delayed
write_all d [] = some d
write_all d (b ∷ bs) = elim (write d none none b) [
  | none ↦ none
  | some (n, e, d') ↦ write_all d' bs
]

pub stream-sent : (b : Bytes) (w : Wire) → stream (sent none b w) ≡ stream w ++ b
stream-sent b w =
    ap (λ x. early_bytes w.opened_by.protocol ++ x)
      (concat-append w.messages (b ∷ []) ∙ ap (λ x. concat w.messages ++ x) (append-nil b))
    ∙ sym (append_assoc (early_bytes w.opened_by.protocol) (concat w.messages) b)

-- An open connection, and one that has not been dialled.
abbrev pub through : Delayed → Wire → Delayed
through d w = record d { conn = some w; dialed = true; closed = false }

abbrev pub fresh : Options → Bytes → ℕ → Delayed
fresh o url ed = record {
  options = o;
  url = url;
  conn = none;
  ed = ed;
  dialed = false;
  closed = false;
}

write_all-through :
    (bs : List Bytes) (d : Delayed) (w : Wire)
    → (w' : Wire) × (write_all (through d w) bs ≡ some (through d w'))
      × (stream w' ≡ stream w ++ concat bs)
      × (w'.opened_by ≡ w.opened_by)
unfolding write_all write
write_all-through [] d w = (w, refl, sym (append-nil (stream w)), refl)
write_all-through (b ∷ bs) d w =
    let (w', e, s, h) = write_all-through bs d (sent none b w) in
    (
      w',
      e,
      s ∙ ap (λ x. x ++ concat bs) (stream-sent b w) ∙ append_assoc (stream w) b (concat bs),
      h,
    )

-- The wire that the first write leaves, by whether it was too long for the handshake.
abbrev pub first_wire : Options → Bytes → Bytes → Bool → Wire
first_wire o url b true = sent none b (opened (handshake o url none))
first_wire o url b false = opened (handshake o url (some b))

write_dialed-fresh :
    (o : Options) (url : Bytes) (ed : ℕ) (b : Bytes) (long : Bool)
    → write_dialed (fresh o url ed) none (if long then none else some b) b
      ≡ some (length b, none, through (fresh o url ed) (first_wire o url b long))
write_dialed-fresh o url ed b true = refl
write_dialed-fresh o url ed b false = refl

pub write-fresh :
    (o : Options) (url : Bytes) (ed : ℕ) (b : Bytes)
    → write (fresh o url ed) none none b
      ≡ some (length b, none, through (fresh o url ed) (first_wire o url b (too_long ed b)))
unfolding write
write-fresh o url ed b = write_dialed-fresh o url ed b (too_long ed b)

pub stream-first_wire :
    (o : Options) (url b : Bytes) (long : Bool)
    → All IsByte b
    → stream (first_wire o url b long) ≡ b
unfolding handshake
stream-first_wire o url b true h = append-nil b
stream-first_wire o url b false h = append-nil _ ∙ ap (λ r. r.0) (decode-encode b h)

protocol-first_wire :
    (o : Options) (url b : Bytes) (long : Bool)
    → (first_wire o url b long).opened_by.protocol ≡ early_header (if long then none else some b)
unfolding handshake
protocol-first_wire o url b true = refl
protocol-first_wire o url b false = refl

write_all-cons :
    (d d' : Delayed) (b : Bytes) (bs : List Bytes) (n : ℕ) (e : Option Bytes)
    → write d none none b ≡ some (n, e, d')
    → write_all d (b ∷ bs) ≡ write_all d' bs
unfolding write_all
write_all-cons d d' b bs n e h =
    ap (λ (r : Written). elim r [ none ↦ none | some (n, e, d') ↦ write_all d' bs ]) h

-- However the bytes are cut into writes, and however many of them go into the handshake, the server
-- reads them all, in order: those in the header, decoded, and then those of the messages.
pub write_all-fresh :
    (o : Options) (url : Bytes) (ed : ℕ) (b : Bytes) (bs : List Bytes)
    → All IsByte b
    → (d : Delayed) × (w : Wire) × (write_all (fresh o url ed) (b ∷ bs) ≡ some d)
      × (d.conn ≡ some w)
      × (stream w ≡ b ++ concat bs)
      × (w.opened_by.protocol ≡ early_header (early ed b))
write_all-fresh o url ed b bs h =
    let first = first_wire o url b (too_long ed b) in
    let (w, e, s, p) = write_all-through bs (fresh o url ed) first in
    (
      through (fresh o url ed) w,
      w,
      write_all-cons (fresh o url ed) _ b bs _ _ (write-fresh o url ed b) ∙ e,
      refl,
      s ∙ ap (λ x. x ++ concat bs) (stream-first_wire o url b (too_long ed b) h),
      ap (λ x. x.protocol) p ∙ protocol-first_wire o url b (too_long ed b),
    )

-- What may be done to the connection.
pub data Op : Type 0 where
  writes : Option Bytes → Option Bytes → Bytes → Op
  closes : Op

abbrev left : Delayed → Written → Delayed
left d none = d
left d (some (n, e, d')) = d'

unfoldable pub apply : Delayed → Op → Delayed
apply d (writes dial err b) = left d (write d dial err b)
apply d closes = close d

unfoldable pub run : Delayed → List Op → Delayed
run d [] = d
run d (o ∷ os) = run (apply d o) os

abbrev IsDead : Delayed → Type 0
IsDead d = (d.closed ≡ true) × (d.dialed ≡ false)

apply-IsDead : (d : Delayed) (o : Op) → IsDead d → IsDead (apply d o)
unfolding apply write close
apply-IsDead d (writes dial err b) v = ground arith
apply-IsDead d closes v = ground arith

run-IsDead : (d : Delayed) (os : List Op) → IsDead d → IsDead (run d os)
unfolding run
run-IsDead d [] v = v
run-IsDead d (o ∷ os) v = run-IsDead (apply d o) os (apply-IsDead d o v)

read-IsDead : (d : Delayed) → IsDead d → read d ≡ waits
unfolding read
read-IsDead d v = ground arith

-- After a dial that failed, or a close before the first write, a reader waits for ever: nothing
-- that can be done to the connection afterwards closes `dialed`.
pub read_after_failed_dial :
    (o : Options) (url : Bytes) (ed : ℕ) (e b : Bytes) (err : Option Bytes) (os : List Op)
    → (read (run (fresh o url ed) (writes (some e) err b ∷ os)) ≡ waits)
      × (read (run (fresh o url ed) (closes ∷ os)) ≡ waits)
unfolding run apply write close
read_after_failed_dial o url ed e b err os =
    (read-IsDead _ (run-IsDead _ os (refl, refl)), read-IsDead _ (run-IsDead _ os (refl, refl)))
