-- ===== src/Args/Escape.antt =====
-- `backslashEscape` and `encodeSmethodArgs` of args/args.go.
pub mod Order
pub mod Extensional
use gost_plugin.Args.Map.{Entries, lookup, values}
use gost_plugin.Args.Unescape.{backslash}
use gost_plugin.Common.{
  Bool, Bytes, List, Option, [], contains_byte, false, if◌then◌else◌, ltb, none, some, true, ℕ,
  ◌++◌, ◌==◌, ◌||◌, ◌∷◌,
}

-- What one round of the loop of `backslashEscape` writes.
abbrev pub escape_byte : Bytes → ℕ → Bytes
escape_byte set b = if b == backslash || contains_byte set b then backslash ∷ b ∷ [] else b ∷ []

unfoldable pub backslash_escape : Bytes → Bytes → Bytes
unfolding contains_byte
backslash_escape [] set = []
backslash_escape (b ∷ s) set = escape_byte set b ++ backslash_escape s set

-- The order of Go strings: by bytes, and a prefix comes first.
unfoldable pub string_leb : Bytes → Bytes → Bool
string_leb [] t = true
string_leb (b ∷ s) [] = false
string_leb (b ∷ s) (c ∷ t) = if b == c then string_leb s t else ltb b c

unfoldable pub insert_sorted : Bytes → List Bytes → List Bytes
unfolding string_leb
insert_sorted k [] = k ∷ []
insert_sorted k (j ∷ ks) = if string_leb k j then k ∷ j ∷ ks else j ∷ insert_sorted k ks

-- `sort.Strings`: a sorted permutation. Equal keys cannot be told apart, so any sort gives this.
unfoldable pub sort_strings : List Bytes → List Bytes
unfolding insert_sorted
sort_strings [] = []
sort_strings (k ∷ ks) = insert_sorted k (sort_strings ks)

unfoldable pub keys : Entries → List Bytes
keys [] = []
keys ((k, vs) ∷ m) = k ∷ keys m

-- `strings.Join(parts, sep)`
unfoldable pub join : List Bytes → Bytes → Bytes
join [] sep = []
join (p ∷ []) sep = p
join (p ∷ q ∷ ps) sep = p ++ (sep ++ join (q ∷ ps) sep)

abbrev pub smethod_set : Bytes
smethod_set = b'=' ∷ b',' ∷ []

-- The inner loop of `encodeSmethodArgs`: the pairs of one key.
unfoldable pub key_pairs : Bytes → List Bytes → List Bytes
unfolding backslash_escape
key_pairs k [] = []
key_pairs k (v ∷ vs) =
    (backslash_escape k smethod_set ++ (b'=' ∷ backslash_escape v smethod_set)) ∷ key_pairs k vs

unfoldable pub all_pairs : Entries → List Bytes → List Bytes
unfolding key_pairs lookup
all_pairs m [] = []
all_pairs m (k ∷ ks) = key_pairs k (values (lookup m k)) ++ all_pairs m ks

unfoldable pub encode_smethod_args : Option Entries → Bytes
unfolding join all_pairs sort_strings keys
encode_smethod_args none = []
encode_smethod_args (some m) = join (all_pairs m (sort_strings (keys m))) (b',' ∷ [])
