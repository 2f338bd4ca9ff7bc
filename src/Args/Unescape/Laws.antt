-- ===== src/Args/Unescape/Laws.antt =====
-- `index_unescaped` against the escaped texts as an inductive relation.
use gost_plugin.Common.{
  ==-ne, ==_iff, Bool-cases, Bytes, [], ap, append-nil, append_assoc, arith, contains_byte, drop,
  false, inl, inr, length, refl, subst, suc, sym, true, ℕ, ◌++◌, ◌+◌, ◌==◌, ◌∙◌, ◌∷◌, ◌≡◌, ◌≢◌, ◌≤◌,
}
use gost_plugin.Args.Result.{ArgError, Result, err, nothing_follows, ok}
use gost_plugin.Args.Unescape.{backslash, index_unescaped, unescape_loop}

-- `Reads term s u r`: `s` is an escaped spelling of `u` followed by `r`, and `r` is empty or begins
-- with the first byte of `s` that is in `term` and not escaped.
pub data Reads (term : Bytes) : Bytes → Bytes → Bytes → Type 0 where
  at_end : Reads term [] [] []
  at_term : {c : ℕ} {r : Bytes} → contains_byte term c ≡ true → Reads term (c ∷ r) [] (c ∷ r)
  plain :
      {c : ℕ} {s u r : Bytes}
      → contains_byte term c ≡ false
      → c ≢ backslash
      → Reads term s u r
      → Reads term (c ∷ s) (c ∷ u) r
  escaped :
      {b c : ℕ} {s u r : Bytes}
      → b ≡ backslash
      → contains_byte term b ≡ false
      → Reads term s u r
      → Reads term (b ∷ c ∷ s) (c ∷ u) r

-- What a run of the loop from `i` and `unesc` has read when it ends.
abbrev Read : Bytes → Bytes → ℕ → Bytes → Result (ℕ × Bytes) → Type 0
Read term s i unesc (err e) = Unit
Read term s i unesc (ok (j, v)) =
    (k : ℕ) × (u : Bytes) × (j ≡ i + k)
    × (k ≤ length s)
    × (v ≡ unesc ++ u)
    × Reads term s u (drop k s)

Read-plain :
    (term : Bytes) (b : ℕ) (s : Bytes) (i : ℕ) (unesc : Bytes) (r : Result (ℕ × Bytes))
    → contains_byte term b ≡ false
    → b ≢ backslash
    → Read term s (i + 1) (unesc ++ b ∷ []) r
    → Read term (b ∷ s) i unesc r
Read-plain term b s i unesc (err e) h n p = tt
Read-plain term b s i unesc (ok (j, v)) h n (k, u, ej, le, ev, t) =
    (suc k, b ∷ u, omega arith, omega arith, ev ∙ append_assoc unesc (b ∷ []) u, plain h n t)

Read-escaped :
    (term : Bytes) (b c : ℕ) (s : Bytes) (i : ℕ) (unesc : Bytes) (r : Result (ℕ × Bytes))
    → contains_byte term b ≡ false
    → b ≡ backslash
    → Read term s (i + 2) (unesc ++ c ∷ []) r
    → Read term (b ∷ c ∷ s) i unesc r
Read-escaped term b c s i unesc (err e) h n p = tt
Read-escaped term b c s i unesc (ok (j, v)) h n (k, u, ej, le, ev, t) = (
  suc (suc k),
  c ∷ u,
  omega arith,
  omega arith,
  ev ∙ append_assoc unesc (c ∷ []) u,
  escaped n h t,
)

Read-at_term :
    (term : Bytes) (b : ℕ) (s : Bytes) (i : ℕ) (unesc : Bytes)
    → contains_byte term b ≡ true
    → Read term (b ∷ s) i unesc (ok (i, unesc))
Read-at_term term b s i unesc h =
    (0, [], omega arith, omega arith, sym (append-nil unesc), at_term h)

Read-at_end : (term : Bytes) (i : ℕ) (unesc : Bytes) → Read term [] i unesc (ok (i, unesc))
Read-at_end term i unesc = (0, [], omega arith, omega arith, sym (append-nil unesc), at_end)

unescape_loop-Read :
    (all term s : Bytes) (i : ℕ) (unesc : Bytes)
    → Read term s i unesc (unescape_loop all term s i unesc)
unfolding unescape_loop
unescape_loop-Read all term [] i unesc = Read-at_end term i unesc
unescape_loop-Read all term (b ∷ []) i unesc = elim (Bool-cases (contains_byte term b)) [
  | inl stop ↦ rw stop (Read-at_term term b [] i unesc stop)
  | inr go ↦ rw go (elim (Bool-cases (b == backslash)) [
    | inl esc ↦ rw esc tt
    | inr other ↦ rw other (
        Read-plain term b [] i unesc (ok (i + 1, unesc ++ b ∷ [])) go (==-ne b backslash other)
          (Read-at_end term (i + 1) (unesc ++ b ∷ [])))
  ])
]
unescape_loop-Read all term (b ∷ c ∷ s) i unesc = elim (Bool-cases (contains_byte term b)) [
  | inl stop ↦ rw stop (Read-at_term term b (c ∷ s) i unesc stop)
  | inr go ↦ rw go (elim (Bool-cases (b == backslash)) [
    | inl esc ↦ rw esc (
        Read-escaped term b c s i unesc _ go ((==_iff b backslash).0 esc)
          (unescape_loop-Read all term s (i + 2) (unesc ++ c ∷ [])))
    | inr other ↦ rw other (
        Read-plain term b (c ∷ s) i unesc _ go (==-ne b backslash other)
          (unescape_loop-Read all term (c ∷ s) (i + 1) (unesc ++ b ∷ [])))
  ])
]

-- A text that the relation reads is read by the loop, from every counter and copy.
abbrev Runs : Bytes → Bytes → Bytes → Bytes → Bytes → Type 0
Runs all term s u r =
    (k : ℕ) × ((i : ℕ) (unesc : Bytes) → unescape_loop all term s i unesc ≡ ok (i + k, unesc ++ u))
    × (drop k s ≡ r)
    × (k ≤ length s)

Runs-plain :
    (all term : Bytes) (c : ℕ) (s u r : Bytes)
    → contains_byte term c ≡ false
    → c ≢ backslash
    → Runs all term s u r
    → Runs all term (c ∷ s) (c ∷ u) r
unfolding unescape_loop
Runs-plain all term c [] u r h n (k, run, e, le) = (
  suc k,
  (λ i unesc. ground (arith, run (i + 1) (unesc ++ c ∷ []), append_assoc unesc (c ∷ []) u)),
  e,
  omega arith,
)
Runs-plain all term c (d ∷ s) u r h n (k, run, e, le) = (
  suc k,
  (λ i unesc. ground (arith, run (i + 1) (unesc ++ c ∷ []), append_assoc unesc (c ∷ []) u)),
  e,
  omega arith,
)

Runs-escaped :
    (all term : Bytes) (b c : ℕ) (s u r : Bytes)
    → contains_byte term b ≡ false
    → b ≡ backslash
    → Runs all term s u r
    → Runs all term (b ∷ c ∷ s) (c ∷ u) r
unfolding unescape_loop
Runs-escaped all term b c s u r h n (k, run, e, le) = (
  suc (suc k),
  (λ i unesc. ground (arith, run (i + 2) (unesc ++ c ∷ []), append_assoc unesc (c ∷ []) u)),
  e,
  omega arith,
)

Runs-at_term :
    (all term : Bytes) (c : ℕ) (r : Bytes)
    → contains_byte term c ≡ true
    → Runs all term (c ∷ r) [] (c ∷ r)
unfolding unescape_loop
Runs-at_term all term c [] h = (0, (λ i unesc. ground (arith, append-nil unesc)), refl, omega arith)
Runs-at_term all term c (d ∷ r) h =
    (0, (λ i unesc. ground (arith, append-nil unesc)), refl, omega arith)

Reads-Runs : (all term : Bytes) {s u r : Bytes} → Reads term s u r → Runs all term s u r
unfolding unescape_loop
Reads-Runs all term at_end = (0, (λ i unesc. ground (arith, append-nil unesc)), refl, omega arith)
Reads-Runs all term (at_term {c} {r} h) = Runs-at_term all term c r h
Reads-Runs all term (plain {c} {s} {u} {r} h n t) =
    Runs-plain all term c s u r h n (Reads-Runs all term t)
Reads-Runs all term (escaped {b} {c} {s} {u} {r} n h t) =
    Runs-escaped all term b c s u r h n (Reads-Runs all term t)

-- What is read determines the offset.
pub Reads-index_unescaped :
    (term s u r : Bytes)
    → Reads term s u r
    → (k : ℕ) × (index_unescaped s term ≡ ok (k, u)) × (drop k s ≡ r) × (k ≤ length s)
unfolding index_unescaped
Reads-index_unescaped term s u r t =
    let (k, run, e, le) = Reads-Runs s term t in
    (k, run 0 [] ∙ ap (λ (j : ℕ). ok (j, u)) (omega arith), e, le)

pub index_unescaped-Reads :
    (term s u : Bytes) (k : ℕ)
    → index_unescaped s term ≡ ok (k, u)
    → Reads term s u (drop k s) × (k ≤ length s)
unfolding index_unescaped
index_unescaped-Reads term s u k h = finish (rw h at (unescape_loop-Read s term s 0 []))
  where
    finish : Read term s 0 [] (ok (k, u)) → Reads term s u (drop k s) × (k ≤ length s)
    finish (j, v, ej, le, ev, t) =
        let ek : j ≡ k = omega arith in
        (
          subst (λ (w : Bytes). Reads term s w (drop k s)) (sym ev)
              (subst (λ (i : ℕ). Reads term s v (drop i s)) ek t),
          omega arith,
        )

-- The loop fails only with the message about a final escape, which quotes the whole text.
abbrev FailsWith : Bytes → Result (ℕ × Bytes) → Type 0
FailsWith all (ok a) = Unit {0}
FailsWith all (err e) = e ≡ nothing_follows all

unescape_loop-FailsWith :
    (all term s : Bytes) (i : ℕ) (unesc : Bytes) → FailsWith all (unescape_loop all term s i unesc)
unfolding unescape_loop
unescape_loop-FailsWith all term [] i unesc = tt
unescape_loop-FailsWith all term (b ∷ []) i unesc = ground arith
unescape_loop-FailsWith all term (b ∷ c ∷ s) i unesc = ground (
  arith,
  unescape_loop-FailsWith all term s (i + 2) (unesc ++ c ∷ []),
  unescape_loop-FailsWith all term (c ∷ s) (i + 1) (unesc ++ b ∷ []),
)

pub index_unescaped-error :
    (term s : Bytes) (e : ArgError) → index_unescaped s term ≡ err e → e ≡ nothing_follows s
unfolding index_unescaped
index_unescaped-error term s e h = rw h at (unescape_loop-FailsWith s term s 0 [])
