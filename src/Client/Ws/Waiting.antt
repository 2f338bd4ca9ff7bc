-- ===== src/Client/Ws/Waiting.antt =====
-- When a reader of the delayed connection waits, fails or reads.
use gost_plugin.Args.Addr.{Options}
use gost_plugin.Client.Ws.{Delayed, close, fails, read, reads, waits, write}
use gost_plugin.Client.Ws.Laws.{
  IsValid, Op, apply, closes, fresh, read_after_failed_dial, run, writes,
}
use gost_plugin.Common.{
  Bool, Bytes, List, Option, [], ap, arith, false, if◌then◌else◌, none, refl, some, true, ℕ, ◌||◌,
  ◌∙◌, ◌∷◌, ◌≡◌,
}

-- The first operation is a write whose dial works.
abbrev pub Dials : List Op → Type 0
Dials [] = ⊥
Dials (writes none err b ∷ os) = Unit {0}
Dials (writes (some e) err b ∷ os) = ⊥
Dials (closes ∷ os) = ⊥

abbrev pub any_close : List Op → Bool
any_close [] = false
any_close (writes dial err b ∷ os) = any_close os
any_close (closes ∷ os) = true

-- A connection that was dialled.
abbrev IsOpen : Delayed → Type 0
IsOpen d = (d.dialed ≡ true) × IsValid d

-- What an operation leaves of a connection that was dialled.
abbrev Leaves : Delayed → Op → Delayed → Type 0
Leaves d o r = (r.dialed ≡ true) × IsValid r × (r.closed ≡ (d.closed || any_close (o ∷ [])))

apply-Leaves : (d : Delayed) (o : Op) → IsOpen d → Leaves d o (apply d o)
unfolding apply write close
apply-Leaves d (writes dial err b) v = ground arith
apply-Leaves d closes v = ground arith

run-closed :
    (d : Delayed) (os : List Op)
    → IsOpen d
    → ((run d os).dialed ≡ true) × ((run d os).closed ≡ (d.closed || any_close os))
unfolding run
run-closed d [] v = (v.0, ground arith)
run-closed d (writes dial err b ∷ os) v =
    let (open_, valid, c) = apply-Leaves d (writes dial err b) v in
    let (open_still, e) = run-closed (apply d (writes dial err b)) os (open_, valid) in
    (open_still, ground (arith, c, e))
run-closed d (closes ∷ os) v =
    let (open_, valid, c) = apply-Leaves d closes v in
    let (open_still, e) = run-closed (apply d closes) os (open_, valid) in
    (open_still, ground (arith, c, e))

fresh-Leaves :
    (o : Options) (url : Bytes) (ed : ℕ) (err : Option Bytes) (b : Bytes)
    → Leaves (fresh o url ed) (writes none err b) (apply (fresh o url ed) (writes none err b))
unfolding apply write
fresh-Leaves o url ed err b = ground arith

read-dialed : (d : Delayed) → d.dialed ≡ true → read d ≡ (if d.closed then fails else reads)
unfolding read
read-dialed d e = ground arith

dialled_lem :
    (o : Options) (url : Bytes) (ed : ℕ) (err : Option Bytes) (b : Bytes) (os : List Op)
    → read (run (fresh o url ed) (writes none err b ∷ os)) ≡ (if any_close os then fails else reads)
unfolding run
dialled_lem o url ed err b os =
    let d : Delayed = apply (fresh o url ed) (writes none err b) in
    let (open_, valid, c) = fresh-Leaves o url ed err b in
    let (open_still, e) = run-closed d os (open_, valid) in
    read-dialed (run d os) open_still
    ∙ ap (λ x. if x then fails else reads) (e ∙ ap (λ x. x || any_close os) c)

read-fresh : (o : Options) (url : Bytes) (ed : ℕ) → read (run (fresh o url ed) []) ≡ waits
unfolding read run
read-fresh o url ed = refl

-- What a reader of a new delayed connection finds after any operations on it: if the first of them is
-- a write whose dial works, the reader gets through, and fails exactly if the connection was closed;
-- in every other case it waits.
pub read-run :
    (o : Options) (url : Bytes) (ed : ℕ) (os : List Op)
    → (Dials os → read (run (fresh o url ed) os) ≡ (if any_close os then fails else reads))
      × (¬ Dials os → read (run (fresh o url ed) os) ≡ waits)
read-run o url ed [] = ((λ h. absurd h), λ h. read-fresh o url ed)
read-run o url ed (closes ∷ os) =
    ((λ h. absurd h), λ h. (read_after_failed_dial o url ed [] [] none os).1)
read-run o url ed (writes (some e) err b ∷ os) =
    ((λ h. absurd h), λ h. (read_after_failed_dial o url ed e b err os).0)
read-run o url ed (writes none err b ∷ os) =
    ((λ h. dialled_lem o url ed err b os), λ h. absurd (h tt))
