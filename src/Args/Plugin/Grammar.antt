-- ===== src/Args/Plugin/Grammar.antt =====
-- `parse_plugin_options` decides the grammar of SIP003 options: what it accepts, and what it returns.
use native.Mathlib.Numerals.{add-one}
use gost_plugin.Args.Map.{Entries, add}
use gost_plugin.Args.Plugin.{
  flag_value, key_ends, parse_loop, parse_plugin_options, read_pair, read_value, value_ends,
}
use gost_plugin.Args.Result.{ArgError, Result-cases, err, err-ne-ok, ok, ok-injective}
use gost_plugin.Args.Unescape.{index_unescaped}
use gost_plugin.Args.Unescape.Laws.{
  Reads, Reads-index_unescaped, at_end, at_term, escaped, index_unescaped-Reads, plain,
}
use gost_plugin.Common.{
  ==-ne, ==_iff, Bool-cases, Bytes, List, [], ap, arith, drop, inl, inr, length, length-drop, refl,
  subst, suc, sym, true, zero, ℕ, ◌+◌, ◌<◌, ◌==◌, ◌↔◌, ◌∙◌, ◌∷◌, ◌≡◌, ◌≢◌, ◌≤◌, ◌⊎◌,
}

-- What stands behind a key: nothing, another pair, or a value and perhaps another pair.
pub data ReadsValue : Bytes → Bytes → Bytes → Type 0 where
  flag_end : ReadsValue [] flag_value []
  flag : {c : ℕ} {r : Bytes} → c ≢ b'=' → ReadsValue (c ∷ r) flag_value r
  value :
      {c : ℕ} {s v t r : Bytes}
      → c ≡ b'='
      → Reads value_ends s v t
      → r ≡ drop 1 t
      → ReadsValue (c ∷ s) v r

-- `ReadsPairs s ps`: the text `s` spells the pairs `ps`, in this order.
pub data ReadsPairs : Bytes → List (Bytes × Bytes) → Type 0 where
  done : ReadsPairs [] []
  pair :
      {s k t v r : Bytes} {ps : List (Bytes × Bytes)}
      → s ≢ []
      → k ≢ []
      → Reads key_ends s k t
      → ReadsValue t v r
      → ReadsPairs r ps
      → ReadsPairs s ((k, v) ∷ ps)

-- `Add` for each pair, in order.
abbrev pub add_all : Entries → List (Bytes × Bytes) → Entries
add_all m [] = m
add_all m ((k, v) ∷ ps) = add_all (add m k v) ps

drop-add-one : (k : ℕ) (s : Bytes) → drop (k + 1) s ≡ drop 1 (drop k s)
drop-add-one k s = rw add-one (step k s)
  where
    step : (k : ℕ) (s : Bytes) → drop (suc k) s ≡ drop 1 (drop k s)
    step zero s = refl
    step (suc k) [] = refl
    step (suc k) (c ∷ s) = step k s

read_value-ReadsValue : (s r v : Bytes) → read_value s ≡ ok (r, v) → ReadsValue s v r
unfolding read_value
read_value-ReadsValue [] r v h =
    let e = ok-injective h in rw (← ap (λ p. p.0) e, ← ap (λ p. p.1) e) flag_end
read_value-ReadsValue (c ∷ s) r v h = elim (Bool-cases (c == b'=')) [
  | inl e ↦ after e (Result-cases (index_unescaped s value_ends))
  | inr n ↦
      let e = ok-injective (rw n at h) in
      rw (← ap (λ p. p.0) e, ← ap (λ p. p.1) e) (flag (==-ne c b'=' n))
]
  where
    after :
        (c == b'=') ≡ true
        → ((a : ℕ × Bytes) × (index_unescaped s value_ends ≡ ok a))
          ⊎ ((e : ArgError) × (index_unescaped s value_ends ≡ err e))
        → ReadsValue (c ∷ s) v r
    after n (inl ((k, w), q)) =
        let e = ok-injective (rw (n, q) at h) in
        let reads = (index_unescaped-Reads value_ends s w k q).0 in
        rw (← ap (λ p. p.1) e)
          (value ((==_iff c b'=').0 n) reads (sym (ap (λ p. p.0) e) ∙ drop-add-one k s))
    after n (inr (e, q)) = absurd (err-ne-ok (rw (n, q) at h))

ReadsValue-read_value : {s v r : Bytes} → ReadsValue s v r → read_value s ≡ ok (r, v)
unfolding read_value
ReadsValue-read_value flag_end = refl
ReadsValue-read_value (flag {c} {r} n) = ground arith
ReadsValue-read_value (value {c} {s} {v} {t} {r} e reads e') =
    let (k, q, d, le) = Reads-index_unescaped value_ends s v t reads in
    ground (arith, q, drop-add-one k s, d, e')

pub read_pair-Reads :
    (s r k v : Bytes)
    → read_pair s ≡ ok (r, k, v)
    → (k ≢ []) × (t : Bytes) × Reads key_ends s k t × ReadsValue t v r
unfolding read_pair
read_pair-Reads s r k v h = split (Result-cases (index_unescaped s key_ends))
  where
    use_value :
        (i : ℕ) (c : ℕ) (cs : Bytes)
        → index_unescaped s key_ends ≡ ok (i, c ∷ cs)
        → ((a : Bytes × Bytes) × (read_value (drop i s) ≡ ok a))
          ⊎ ((e : ArgError) × (read_value (drop i s) ≡ err e))
        → (k ≢ []) × (t : Bytes) × Reads key_ends s k t × ReadsValue t v r
    use_value i c cs q (inl ((r', w), q')) =
        subst
          (λ (x : Bytes × Bytes × Bytes).
            (x.1 ≢ []) × (t : Bytes) × Reads key_ends s x.1 t × ReadsValue t x.2 x.0)
          (ok-injective (rw (q, q') at h))
          (
            (λ e. cc),
            drop i s,
            (index_unescaped-Reads key_ends s (c ∷ cs) i q).0,
            read_value-ReadsValue (drop i s) r' w q',
          )
    use_value i c cs q (inr (e, q')) = absurd (err-ne-ok (rw (q, q') at h))

    split :
        ((a : ℕ × Bytes) × (index_unescaped s key_ends ≡ ok a))
          ⊎ ((e : ArgError) × (index_unescaped s key_ends ≡ err e))
        → (k ≢ []) × (t : Bytes) × Reads key_ends s k t × ReadsValue t v r
    split (inl ((i, []), q)) = absurd (err-ne-ok (rw q at h))
    split (inl ((i, c ∷ cs), q)) = use_value i c cs q (Result-cases (read_value (drop i s)))
    split (inr (e, q)) = absurd (err-ne-ok (rw q at h))

Reads-read_pair :
    {s k t v r : Bytes}
    → k ≢ []
    → Reads key_ends s k t
    → ReadsValue t v r
    → read_pair s ≡ ok (r, k, v)
unfolding read_pair
Reads-read_pair {s} {k} {t} {v} {r} n reads rest =
    let (i, q, d, le) = Reads-index_unescaped key_ends s k t reads in
    ground (arith, q, d, ReadsValue-read_value rest)

-- Reading makes progress.
length-Reads : {term s u r : Bytes} → Reads term s u r → length u + length r ≤ length s
length-Reads at_end = omega arith
length-Reads (at_term h) = omega arith
length-Reads (plain h n t) = omega (arith, length-Reads t)
length-Reads (escaped e h t) = omega (arith, length-Reads t)

length-ReadsValue : {s v r : Bytes} → ReadsValue s v r → length r ≤ length s
length-ReadsValue flag_end = omega arith
length-ReadsValue (flag n) = omega arith
length-ReadsValue (value {t} {r} e reads e') =
    omega (arith, length-Reads reads, ap length e', length-drop 1 t)

length-pos : (k : Bytes) → k ≢ [] → 0 < length k
length-pos [] n = absurd (n refl)
length-pos (c ∷ k) n = omega arith

pub length-pair :
    {s k t v r : Bytes} → k ≢ [] → Reads key_ends s k t → ReadsValue t v r → length r < length s
length-pair {k} n reads rest =
    omega (arith, length-pos k n, length-Reads reads, length-ReadsValue rest)

parse_loop-ReadsPairs :
    (fuel : ℕ) (s : Bytes) (m m' : Entries)
    → parse_loop fuel s m ≡ ok m'
    → (ps : List (Bytes × Bytes)) × ReadsPairs s ps × (m' ≡ add_all m ps)
unfolding parse_loop
parse_loop-ReadsPairs zero s m m' h = absurd (err-ne-ok h)
parse_loop-ReadsPairs (suc fuel) [] m m' h = ([], done, sym (ok-injective h))
parse_loop-ReadsPairs (suc fuel) (c ∷ s) m m' h = elim (Result-cases (read_pair (c ∷ s))) [
  | inl ((r, k, v), q) ↦
      let (n, t, reads, rest) = read_pair-Reads (c ∷ s) r k v q in
      let (ps, pairs, e) = parse_loop-ReadsPairs fuel r (add m k v) m' (rw q at h) in
      ((k, v) ∷ ps, pair (λ e. cc) n reads rest pairs, e)
  | inr (e, q) ↦ absurd (err-ne-ok (rw q at h))
]

ReadsPairs-parse_loop :
    (fuel : ℕ) (m : Entries) {s : Bytes} {ps : List (Bytes × Bytes)}
    → ReadsPairs s ps
    → length s < fuel
    → parse_loop fuel s m ≡ ok (add_all m ps)
unfolding parse_loop
ReadsPairs-parse_loop zero m p h = absurd (omega arith)
ReadsPairs-parse_loop (suc fuel) m done h = refl
ReadsPairs-parse_loop (suc fuel) m (pair {s = []} ne n reads rest p) h = absurd (ne refl)
ReadsPairs-parse_loop (suc fuel) m (pair {s = c ∷ s} {k} {v} ne n reads rest p) h =
    rw (Reads-read_pair n reads rest)
      (ReadsPairs-parse_loop fuel (add m k v) p (omega (arith, length-pair n reads rest)))

-- A text is accepted exactly when it spells pairs with keys that are not empty, and the result is
-- the map to which these were added in order.
pub parse_plugin_options_iff :
    (s : Bytes) (m : Entries)
    → (parse_plugin_options s ≡ ok m)
      ↔ ((ps : List (Bytes × Bytes)) × ReadsPairs s ps × (m ≡ add_all [] ps))
unfolding parse_plugin_options
parse_plugin_options_iff s m = (
  parse_loop-ReadsPairs (suc (length s)) s [] m,
  λ (ps, p, e). ReadsPairs-parse_loop (suc (length s)) [] p (omega arith) ∙ ap ok (sym e),
)
