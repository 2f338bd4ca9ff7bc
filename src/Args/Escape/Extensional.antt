-- ===== src/Args/Escape/Extensional.antt =====
-- `encodeSmethodArgs` as a function of the map, not of the entries that stand for it.
use gost_plugin.Args.Escape.{encode_smethod_args, insert_sorted, keys, sort_strings}
use gost_plugin.Args.Escape.Order.{SameMap, all_pairs-SameMap, insert_sorted_comm}
use gost_plugin.Args.Map.{Distinct, Entries, lookup}
use gost_plugin.Common.{
  Bytes, List, [], ap, arith, equal, equal_iff, equal_refl, if◌then◌else◌, none, refl, some, sym,
  ◌∙◌, ◌∷◌, ◌≡◌,
}

remove : Bytes → Entries → Entries
remove k [] = []
remove k ((j, vs) ∷ m) = if equal j k then m else (j, vs) ∷ remove k m

lookup-remove :
    (m : Entries) (k i : Bytes)
    → Distinct m
    → lookup (remove k m) i ≡ (if equal k i then none else lookup m i)
unfolding lookup remove
lookup-remove [] k i d = ground arith
lookup-remove ((j, vs) ∷ m) k i (fresh, d) =
    ground (arith, equal_iff j k, equal_iff j i, equal_iff k i, fresh, lookup-remove m k i d)

remove-Distinct : (m : Entries) (k : Bytes) → Distinct m → Distinct (remove k m)
unfolding remove lookup
remove-Distinct [] k d = tt
remove-Distinct ((j, vs) ∷ m) k (fresh, d) =
    ground (arith, fresh, lookup-remove m k j d, remove-Distinct m k d)

sort_strings-remove :
    (m : Entries) (k : Bytes) (vs : List Bytes)
    → lookup m k ≡ some vs
    → sort_strings (keys m) ≡ insert_sorted k (sort_strings (keys (remove k m)))
unfolding remove lookup keys sort_strings
sort_strings-remove [] k vs h = absurd (cc)
sort_strings-remove ((j, ws) ∷ m) k vs h = ground (
  arith,
  equal_iff j k,
  sort_strings-remove m k vs,
  insert_sorted_comm j k (sort_strings (keys (remove k m))),
)

SameMap-remove :
    (k : Bytes) (vs : List Bytes) (m m' : Entries)
    → lookup m k ≡ none
    → Distinct m'
    → SameMap ((k, vs) ∷ m) m'
    → SameMap m (remove k m')
unfolding lookup
SameMap-remove k vs m m' fresh d same i =
    ground (arith, equal_iff k i, fresh, same i, lookup-remove m' k i d)

sort_strings-SameMap :
    (m m' : Entries)
    → Distinct m
    → Distinct m'
    → SameMap m m'
    → sort_strings (keys m) ≡ sort_strings (keys m')
unfolding keys sort_strings lookup
sort_strings-SameMap [] [] d d' same = refl
sort_strings-SameMap [] ((j, vs) ∷ m') d d' same = absurd (ground (arith, same j, equal_refl j))
sort_strings-SameMap ((k, vs) ∷ m) m' (fresh, d) d' same =
    ap (insert_sorted k) (
      sort_strings-SameMap m (remove k m') d (remove-Distinct m' k d')
        (SameMap-remove k vs m m' fresh d' same))
    ∙ sym (sort_strings-remove m' k vs (ground (arith, same k, equal_refl k)))

-- The text depends only on what the map gives for each key: entries in any order, with the same values
-- under every key, are encoded as the same text.
pub encode_smethod_args-SameMap :
    (m m' : Entries)
    → Distinct m
    → Distinct m'
    → SameMap m m'
    → encode_smethod_args (some m) ≡ encode_smethod_args (some m')
unfolding encode_smethod_args
encode_smethod_args-SameMap m m' d d' same =
    rw (sort_strings-SameMap m m' d d' same, all_pairs-SameMap m m' (sort_strings (keys m')) same)
