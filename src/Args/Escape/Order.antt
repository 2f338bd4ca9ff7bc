-- ===== src/Args/Escape/Order.antt =====
-- The output of `encodeSmethodArgs` does not depend on Go's order of iteration over the map.
use mathlib.Core.List.{Perm, Permᴰ}
use mathlib.Core.Logic.{∥∥₁_elim}
use gost_plugin.Args.Escape.{
  all_pairs, encode_smethod_args, insert_sorted, keys, sort_strings, string_leb,
}
use gost_plugin.Args.Map.{Distinct, Entries, lookup}
use gost_plugin.Common.{
  Bytes, List, [], ap, arith, equal_iff, false, refl, some, sym, true, ◌∙◌, ◌∷◌, ◌≡◌,
}

string_leb-total : (s t : Bytes) → string_leb s t ≡ false → string_leb t s ≡ true
unfolding string_leb
string_leb-total [] t h = absurd (cc)
string_leb-total (b ∷ s) [] h = refl
string_leb-total (b ∷ s) (c ∷ t) h = ground (arith, string_leb-total s t)

string_leb_antisymm : (s t : Bytes) → string_leb s t ≡ true → string_leb t s ≡ true → s ≡ t
unfolding string_leb
string_leb_antisymm [] [] h k = refl
string_leb_antisymm [] (c ∷ t) h k = absurd (cc)
string_leb_antisymm (b ∷ s) [] h k = absurd (cc)
string_leb_antisymm (b ∷ s) (c ∷ t) h k = ground (arith, string_leb_antisymm s t)

string_leb_trans :
    (s t u : Bytes) → string_leb s t ≡ true → string_leb t u ≡ true → string_leb s u ≡ true
unfolding string_leb
string_leb_trans [] t u h k = refl
string_leb_trans (b ∷ s) [] u h k = absurd (cc)
string_leb_trans (b ∷ s) (c ∷ t) [] h k = absurd (cc)
string_leb_trans (b ∷ s) (c ∷ t) (d ∷ u) h k = ground (arith, string_leb_trans s t u)

-- Two insertions may change places.
pub insert_sorted_comm :
    (a b : Bytes) (l : List Bytes)
    → insert_sorted a (insert_sorted b l) ≡ insert_sorted b (insert_sorted a l)
unfolding insert_sorted
insert_sorted_comm a b [] = ground (arith, string_leb-total a b, string_leb_antisymm a b)
insert_sorted_comm a b (c ∷ l) = ground (
  arith,
  insert_sorted_comm a b l,
  string_leb-total a b,
  string_leb_antisymm a b,
  string_leb-total a c,
  string_leb-total b c,
  string_leb_trans a b c,
  string_leb_trans b a c,
  string_leb_trans a c b,
  string_leb_trans b c a,
)

sort_strings-perm : {l l' : List Bytes} → Permᴰ l l' → sort_strings l ≡ sort_strings l'
unfolding sort_strings
sort_strings-perm Permᴰ.nil = refl
sort_strings-perm (Permᴰ.cons e p) = rw (e, sort_strings-perm p)
sort_strings-perm (Permᴰ.swap {a} {b} {l} e f) =
    rw (← e, ← f) (insert_sorted_comm a b (sort_strings l))
sort_strings-perm (Permᴰ.trans p q) = sort_strings-perm p ∙ sort_strings-perm q

keys-perm : {m m' : Entries} → Permᴰ m m' → Permᴰ (keys m) (keys m')
unfolding keys
keys-perm Permᴰ.nil = Permᴰ.nil
keys-perm (Permᴰ.cons e p) = Permᴰ.cons (ap (λ x. x.0) e) (keys-perm p)
keys-perm (Permᴰ.swap e f) = Permᴰ.swap (ap (λ x. x.0) e) (ap (λ x. x.0) f)
keys-perm (Permᴰ.trans p q) = Permᴰ.trans (keys-perm p) (keys-perm q)

abbrev pub SameMap : Entries → Entries → Type 0
SameMap m m' = (k : Bytes) → lookup m k ≡ lookup m' k

lookup_swap :
    (a b : Bytes × List Bytes) (m : Entries)
    → Distinct (a ∷ b ∷ m)
    → Distinct (b ∷ a ∷ m) × SameMap (a ∷ b ∷ m) (b ∷ a ∷ m)
unfolding lookup
lookup_swap (i, us) (j, vs) m (fresh, (fresh', d)) = (
  (ground (arith, equal_iff i j, equal_iff j i), (ground (arith, equal_iff j i), d)),
  λ k. ground (arith, equal_iff i k, equal_iff j k, equal_iff j i),
)

-- Entries in another order are the same map.
lookup-perm : {m m' : Entries} → Permᴰ m m' → Distinct m → Distinct m' × SameMap m m'
unfolding lookup
lookup-perm Permᴰ.nil d = (tt, λ k. refl)
lookup-perm (Permᴰ.cons {a} {b} {l₁} {l₂} e p) (fresh, d) =
    let (d', same) = lookup-perm p d in rw (← e) ((sym (same a.0) ∙ fresh, d'), λ k. rw (same k))
lookup-perm (Permᴰ.swap {a} {b} {l} e f) d = rw (← e, ← f) (lookup_swap a b l d)
lookup-perm (Permᴰ.trans p q) d =
    let (d', same) = lookup-perm p d in
    let (d'', same') = lookup-perm q d' in (d'', λ k. same k ∙ same' k)

pub all_pairs-SameMap :
    (m m' : Entries) (ks : List Bytes) → SameMap m m' → all_pairs m ks ≡ all_pairs m' ks
unfolding all_pairs
all_pairs-SameMap m m' [] same = refl
all_pairs-SameMap m m' (k ∷ ks) same = rw (same k, all_pairs-SameMap m m' ks same)

pub Bytes-set : IsSet Bytes
Bytes-set = hlevel

-- Whatever order the map is walked in, the text is the same.
pub encode_smethod_args-perm :
    (m m' : Entries)
    → Perm m m'
    → Distinct m
    → encode_smethod_args (some m) ≡ encode_smethod_args (some m')
unfolding encode_smethod_args
encode_smethod_args-perm m m' p d = ∥∥₁_elim p (Bytes-set _ _) λ q.
    let (d', same) = lookup-perm q d in
    rw (sort_strings-perm (keys-perm q), all_pairs-SameMap m m' (sort_strings (keys m')) same)
