-- ===== src/Args/Plugin/Fuel.antt =====
-- The fuel of the parser is enough.
use gost_plugin.Args.Map.{Entries, add}
use gost_plugin.Args.Plugin.{
  key_ends, parse_loop, parse_plugin_options, read_pair, read_value, value_ends, with_key,
}
use gost_plugin.Args.Plugin.Grammar.{length-pair, read_pair-Reads}
use gost_plugin.Args.Result.{
  ArgError, Result, Result-cases, err, err-injective, err-ne-ok, nothing_follows, ok, out_of_fuel,
}
use gost_plugin.Args.Unescape.{index_unescaped}
use gost_plugin.Args.Unescape.Laws.{index_unescaped-error}
use gost_plugin.Common.{
  Bytes, [], arith, drop, inl, inr, length, suc, sym, zero, ℕ, ◌<◌, ◌∙◌, ◌∷◌, ◌≡◌, ◌≢◌,
}

-- Outside the loop no function runs out of fuel.
abbrev Answers {ℓ} : {A : Type ℓ} → Result A → Type 0
Answers (ok a) = Unit {0}
Answers (err e) = e ≢ out_of_fuel

index_unescaped-Answers : (s term : Bytes) → Answers (index_unescaped s term)
index_unescaped-Answers s term = elim (Result-cases (index_unescaped s term)) [
  | inl (a, q) ↦ rw q tt
  | inr (e, q) ↦ rw q (λ f. nothing_follows-ne s (sym (index_unescaped-error term s e q) ∙ f))
]
  where
    nothing_follows-ne : (s : Bytes) → nothing_follows s ≢ out_of_fuel
    nothing_follows-ne s h = cc

read_value-Answers : (s : Bytes) → Answers (read_value s)
unfolding read_value
read_value-Answers [] = tt
read_value-Answers (c ∷ s) = ground (arith, index_unescaped-Answers s value_ends)

with_key-Answers : (key rest : Bytes) → Answers (with_key key rest)
unfolding with_key
with_key-Answers [] rest = λ e. cc
with_key-Answers (c ∷ key) rest = ground (arith, read_value-Answers rest)

read_pair-Answers : (s : Bytes) → Answers (read_pair s)
unfolding read_pair
read_pair-Answers s = elim (Result-cases (index_unescaped s key_ends)) [
  | inl ((i, k), q) ↦ rw q (with_key-Answers k (drop i s))
  | inr (e, q) ↦ rw q (rw q at (index_unescaped-Answers s key_ends))
]

read_pair-error : (s : Bytes) (e : ArgError) → read_pair s ≡ err e → e ≢ out_of_fuel
read_pair-error s e h = rw h at (read_pair-Answers s)

-- The fuel is enough.
parse_loop-error :
    (fuel : ℕ) (s : Bytes) (m : Entries) → length s < fuel → parse_loop fuel s m ≢ err out_of_fuel
unfolding parse_loop
parse_loop-error zero s m h e = absurd (omega arith)
parse_loop-error (suc fuel) [] m h e = err-ne-ok (sym e)
parse_loop-error (suc fuel) (c ∷ s) m h e = elim (Result-cases (read_pair (c ∷ s))) [
  | inl ((r, k, v), q) ↦
      let (n, t, reads, rest) = read_pair-Reads (c ∷ s) r k v q in
      parse_loop-error fuel r (add m k v) (omega (arith, length-pair n reads rest)) (rw q at e)
  | inr (x, q) ↦ read_pair-error (c ∷ s) x q (err-injective (rw q at e))
]

-- The fuel of the parser is enough for every text.
pub parse_plugin_options-ne-out_of_fuel : (s : Bytes) → parse_plugin_options s ≢ err out_of_fuel
unfolding parse_plugin_options
parse_plugin_options-ne-out_of_fuel s = parse_loop-error (suc (length s)) s [] (omega arith)
