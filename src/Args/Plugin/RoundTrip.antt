-- ===== src/Args/Plugin/RoundTrip.antt =====
-- Options written in the format that SIP003 prescribes are read back.
use gost_plugin.Common.{
  All, Bool-cases, Bytes, List, [], ap, append-nil, append_assoc, arith, contains_byte, drop, equal,
  false, if◌then◌else◌, inl, inr, refl, some, sym, true, ℕ, ◌++◌, ◌==◌, ◌||◌, ◌∙◌, ◌∷◌, ◌≡◌, ◌≢◌,
}
use gost_plugin.Args.Escape.{backslash_escape}
use gost_plugin.Args.Map.{Entries, add, first, get, lookup, lookup-add, values}
use gost_plugin.Args.Plugin.{key_ends, parse_plugin_options, value_ends}
use gost_plugin.Args.Plugin.Grammar.{
  ReadsPairs, add_all, done, pair, parse_plugin_options_iff, value,
}
use gost_plugin.Args.Result.{ok}
use gost_plugin.Args.Unescape.{backslash}
use gost_plugin.Args.Unescape.Laws.{Reads, at_end, at_term, escaped, plain}

-- What may stand behind an escaped text.
pub data Ends (term : Bytes) : Bytes → Type 0 where
  nothing : Ends term []
  at_byte : (c : ℕ) (r : Bytes) → contains_byte term c ≡ true → Ends term (c ∷ r)

module _ (term set : Bytes)
    (within : (c : ℕ) → contains_byte set c ≡ false → contains_byte term c ≡ false)
    (free : contains_byte term backslash ≡ false) where
  -- An escaped text is read up to the terminator behind it, and unescaped.
  pub Reads-backslash_escape :
      (v r : Bytes) → Ends term r → Reads term (backslash_escape v set ++ r) v r
  unfolding backslash_escape
  Reads-backslash_escape [] r nothing = at_end
  Reads-backslash_escape [] _ (at_byte c r h) = at_term h
  Reads-backslash_escape (c ∷ v) r h = elim (Bool-cases (c == backslash || contains_byte set c)) [
    | inl hidden ↦ rw hidden (escaped refl free (Reads-backslash_escape v r h))
    | inr shown ↦
        rw shown (plain (within c (ground arith)) (ground arith) (Reads-backslash_escape v r h))
  ]

-- Semicolons and equal signs are escaped, and backslashes.
abbrev pub option_set : Bytes
option_set = b'=' ∷ b';' ∷ []

abbrev pub print_pair : Bytes → Bytes → Bytes → Bytes
print_pair k v rest =
    backslash_escape k option_set ++ (b'=' ∷ (backslash_escape v option_set ++ rest))

unfoldable pub print_pairs : List (Bytes × Bytes) → Bytes
unfolding backslash_escape
print_pairs [] = []
print_pairs ((k, v) ∷ []) = print_pair k v []
print_pairs ((k, v) ∷ p ∷ ps) = print_pair k v (b';' ∷ print_pairs (p ∷ ps))

abbrev pub HasKey : Bytes × Bytes → Type 0
HasKey p = p.0 ≢ []

value_within : (c : ℕ) → contains_byte option_set c ≡ false → contains_byte value_ends c ≡ false
unfolding contains_byte
value_within c h = ground arith

key_within : (c : ℕ) → contains_byte option_set c ≡ false → contains_byte key_ends c ≡ false
unfolding contains_byte
key_within c h = ground arith

append-cons-ne-nil : (a : Bytes) (c : ℕ) (b : Bytes) → a ++ (c ∷ b) ≢ []
append-cons-ne-nil [] c b h = cc
append-cons-ne-nil (d ∷ a) c b h = cc

ReadsPairs-print_pair :
    (k v rest r : Bytes) {ps : List (Bytes × Bytes)}
    → k ≢ []
    → Ends value_ends rest
    → r ≡ drop 1 rest
    → ReadsPairs r ps
    → ReadsPairs (print_pair k v rest) ((k, v) ∷ ps)
unfolding contains_byte
ReadsPairs-print_pair k v rest r n ends e p =
    pair (append-cons-ne-nil (backslash_escape k option_set) _ _) n
      (Reads-backslash_escape key_ends option_set key_within refl k _ (at_byte b'=' _ refl))
      (value refl (Reads-backslash_escape value_ends option_set value_within refl v rest ends) e) p

ReadsPairs-print_pairs :
    (ps : List (Bytes × Bytes)) → All HasKey ps → ReadsPairs (print_pairs ps) ps
unfolding print_pairs contains_byte
ReadsPairs-print_pairs [] _ = done
ReadsPairs-print_pairs ((k, v) ∷ []) (n, _) = ReadsPairs-print_pair k v [] [] n nothing refl done
ReadsPairs-print_pairs ((k, v) ∷ p ∷ ps) (n, more) =
    ReadsPairs-print_pair k v _ _ n (at_byte b';' _ refl) refl
      (ReadsPairs-print_pairs (p ∷ ps) more)

-- The values that a list of pairs gives to a key, in order.
unfoldable pub collect : List (Bytes × Bytes) → Bytes → List Bytes
collect [] j = []
collect ((k, v) ∷ ps) j = if equal k j then v ∷ collect ps j else collect ps j

values-add_all :
    (ps : List (Bytes × Bytes)) (m : Entries) (j : Bytes)
    → values (lookup (add_all m ps) j) ≡ values (lookup m j) ++ collect ps j
unfolding collect
values-add_all [] m j = sym (append-nil _)
values-add_all ((k, v) ∷ ps) m j = ground (
  arith,
  values-add_all ps (add m k v) j,
  lookup-add m k j v,
  append_assoc (values (lookup m j)) (v ∷ []) (collect ps j),
)

-- Pairs with keys that are not empty, whatever bytes they hold, are read back from the text in which
-- their semicolons, equal signs and backslashes are escaped: each key has its values, in order.
pub parse_plugin_options-print_pairs :
    (ps : List (Bytes × Bytes))
    → All HasKey ps
    → (m : Entries) × (parse_plugin_options (print_pairs ps) ≡ ok m)
      × ((k : Bytes) → values (lookup m k) ≡ collect ps k)
      × ((k : Bytes) → get (some m) k ≡ first (collect ps k))
unfolding get
parse_plugin_options-print_pairs ps h = (
  add_all [] ps,
  (parse_plugin_options_iff (print_pairs ps) _).1 (ps, ReadsPairs-print_pairs ps h, refl),
  stored,
  λ k. ap first (stored k),
)
  where
    stored : (k : Bytes) → values (lookup (add_all [] ps) k) ≡ collect ps k
    stored k = values-add_all ps [] k ∙ unfold lookup in refl
