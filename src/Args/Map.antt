-- ===== src/Args/Map.antt =====
-- The type `Args` of args/args.go: `Get`, `Add`, and the assignment to a key.
use gost_plugin.Common.{
  Bytes, List, Option, [], arith, equal, equal_iff, if◌then◌else◌, none, refl, some, ◌++◌, ◌∷◌, ◌≡◌,
}

-- A map that `make` built. The order of the entries stands for Go's arbitrary order of iteration.
abbrev pub Entries : Type 0
Entries = List (Bytes × List Bytes)

unfoldable pub lookup : Entries → Bytes → Option (List Bytes)
lookup [] k = none
lookup ((j, vs) ∷ m) k = if equal j k then some vs else lookup m k

-- `m[k] = vs`
unfoldable pub assign : Entries → Bytes → List Bytes → Entries
assign [] k vs = (k, vs) ∷ []
assign ((j, ws) ∷ m) k vs = if equal j k then (j, vs) ∷ m else (j, ws) ∷ assign m k vs

-- A missing key reads as the nil slice.
abbrev pub values : Option (List Bytes) → List Bytes
values none = []
values (some vs) = vs

abbrev pub first : List Bytes → Option Bytes
first [] = none
first (v ∷ vs) = some v

-- `Get`; `none` as the map is the nil map, as the result it is `"", false`
unfoldable pub get : Option Entries → Bytes → Option Bytes
get none k = none
get (some m) k = first (values (lookup m k))

unfoldable pub add : Entries → Bytes → Bytes → Entries
add m k v = assign m k (values (lookup m k) ++ v ∷ [])

pub lookup-assign :
    (m : Entries) (k j : Bytes) (vs : List Bytes)
    → lookup (assign m k vs) j ≡ (if equal k j then some vs else lookup m j)
unfolding lookup assign
lookup-assign [] k j vs = refl
lookup-assign ((i, ws) ∷ m) k j vs =
    ground (arith, equal_iff i k, equal_iff i j, equal_iff k j, lookup-assign m k j vs)

-- `Add` appends behind the values of its own key and leaves every other key alone.
pub lookup-add :
    (m : Entries) (k j v : Bytes)
    → lookup (add m k v) j
      ≡ (if equal k j then some (values (lookup m j) ++ v ∷ []) else lookup m j)
unfolding add
lookup-add m k j v =
    ground (arith, equal_iff k j, lookup-assign m k j (values (lookup m k) ++ v ∷ []))

-- What Go's maps are by construction: a key has one entry.
abbrev pub Distinct : Entries → Type 0
Distinct [] = Unit {0}
Distinct ((k, vs) ∷ m) = (lookup m k ≡ none) × Distinct m

pub assign-Distinct :
    (m : Entries) (k : Bytes) (vs : List Bytes) → Distinct m → Distinct (assign m k vs)
unfolding assign lookup
assign-Distinct [] k vs d = (refl, tt)
assign-Distinct ((j, ws) ∷ m) k vs (fresh, d) =
    ground (arith, equal_iff j k, equal_iff k j, lookup-assign m k j vs, assign-Distinct m k vs d)

pub add-Distinct : (m : Entries) (k v : Bytes) → Distinct m → Distinct (add m k v)
unfolding add
add-Distinct m k v d = assign-Distinct m k _ d
