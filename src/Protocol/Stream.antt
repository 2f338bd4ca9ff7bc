-- ===== src/Protocol/Stream.antt =====
-- Reading a text one buffer at a time, as each `Read` of gost/protocol does by `copy`.
use gost_plugin.Common.{
  Bytes, Option, [], ap, append_assoc, arith, drop, length, suc, sym, take, take-append-drop, zero,
  ℕ, ◌++◌, ◌∙◌, ◌∷◌, ◌≡◌, ◌≤◌,
}

pub length-take-le : (size : ℕ) (s : Bytes) → length (take size s) ≤ size
length-take-le zero s = omega arith
length-take-le (suc size) [] = omega arith
length-take-le (suc size) (b ∷ s) = omega (arith, length-take-le size s)

pub take-drop : (size : ℕ) (s r : Bytes) → s ++ r ≡ take size s ++ (drop size s ++ r)
take-drop size s r =
    sym (ap (λ x. x ++ r) (take-append-drop size s)) ∙ append_assoc (take size s) (drop size s) r

-- Reading one buffer, and then the rest.
pub result-eq :
    (size : ℕ) (d s : Bytes) (e : Option Bytes) (r : Bytes × Option Bytes)
    → r ≡ (drop size d ++ s, e)
    → ◌≡◌ {A = Bytes × Option Bytes} (take size d ++ r.0, r.1) (d ++ s, e)
result-eq size d s e r h = rw (h, ← take-drop size d s)
