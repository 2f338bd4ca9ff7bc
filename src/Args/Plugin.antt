-- ===== src/Args/Plugin.antt =====
-- `parsePluginOptions` of args/args.go.
pub mod Grammar
pub mod Fuel
pub mod RoundTrip
use gost_plugin.Common.{Bytes, [], drop, if◌then◌else◌, length, suc, zero, ℕ, ◌+◌, ◌==◌, ◌∷◌}
use gost_plugin.Args.Map.{Entries, add}
use gost_plugin.Args.Result.{Result, empty_key, err, ok, out_of_fuel, ◌>>=◌}
use gost_plugin.Args.Unescape.{index_unescaped}

abbrev pub key_ends : Bytes
key_ends = b'=' ∷ b';' ∷ []

abbrev pub value_ends : Bytes
value_ends = b';' ∷ []

abbrev pub flag_value : Bytes
flag_value = b'1' ∷ []

-- The part of a round behind the key; the text is `s[i:]` behind the key. It gives the index behind
-- the pair as what is left of the text, and the value.
unfoldable pub read_value : Bytes → Result (Bytes × Bytes)
unfolding index_unescaped
read_value [] = ok ([], flag_value)
read_value (c ∷ rest) =
    if c == b'='
    then (do (offset, value) ← index_unescaped rest value_ends; ok (drop (offset + 1) rest, value))
    else ok (rest, flag_value)

-- A round behind the reading of the key. The error names `s[begin:i]`, and `begin` is `i` there.
unfoldable pub with_key : Bytes → Bytes → Result (Bytes × Bytes × Bytes)
unfolding read_value
with_key [] rest = err (empty_key [])
with_key (c ∷ key) rest = do (left, value) ← read_value rest; ok (left, c ∷ key, value)

-- One round of the `for` loop on `s[i:]`: what is left of it, and the pair that is added.
unfoldable pub read_pair : Bytes → Result (Bytes × Bytes × Bytes)
unfolding index_unescaped with_key
read_pair s = do (offset, key) ← index_unescaped s key_ends; with_key key (drop offset s)

-- The `for` loop, on fuel.
unfoldable pub parse_loop : ℕ → Bytes → Entries → Result Entries
unfolding read_pair add
parse_loop zero s opts = err out_of_fuel
parse_loop (suc fuel) [] opts = ok opts
parse_loop (suc fuel) (c ∷ s) opts = do
  (rest, key, value) ← read_pair (c ∷ s)
  parse_loop fuel rest (add opts key value)

-- Each round takes at least one byte, so this fuel is enough.
unfoldable pub parse_plugin_options : Bytes → Result Entries
unfolding parse_loop
parse_plugin_options s = parse_loop (suc (length s)) s []
