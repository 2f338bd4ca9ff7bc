-- ===== src/Args/Addr/Brackets.antt =====
-- The brackets that `fixAddr` of args/args.go puts around a host.
use gost_plugin.Args.Addr.{first_is, fix_addr, host_port, last_is}
use gost_plugin.Args.Addr.Laws.{cut_last, host_port_parts}
use gost_plugin.Args.Number.{format_uint, max_uint64, parse_uint}
use gost_plugin.Args.Result.{ok}
use gost_plugin.Common.{
  Bool, Bool-cases, Bytes, [], ap, arith, contains, false, has_prefix, if◌then◌else◌, inl, inr, not,
  refl, some, subst, sym, true, ℕ, ◌&&◌, ◌++◌, ◌==◌, ◌↔◌, ◌∙◌, ◌∷◌, ◌≡◌, ◌≢◌, ◌≤◌, ◌⊎◌,
}

-- A text has a byte somewhere.
abbrev pub Has : ℕ → Bytes → Type 0
Has c [] = ⊥
Has c (b ∷ s) = (b ≡ c) ⊎ Has c s

-- A host with a colon, such as an address of IPv6, that neither begins nor ends with a bracket.
abbrev pub NeedsBrackets : Bytes → Type 0
NeedsBrackets a = Has b':' a × ((s : Bytes) → a ≢ b'[' ∷ s) × ((s : Bytes) → a ≢ s ++ b']' ∷ [])

contains-Has : (a : Bytes) (c : ℕ) → (contains a (c ∷ []) ≡ true) ↔ Has c a
unfolding contains has_prefix
contains-Has [] c = ((λ e. absurd (cc)), (λ h. absurd h))
contains-Has (b ∷ s) c =
    let (f, g) = contains-Has s c in
    (
      (λ e. elim (Bool-cases (c == b)) [
        | inl same ↦ inl (ground arith)
        | inr other ↦ inr (f (ground arith))
      ]),
      (λ h. elim h [ inl e ↦ ground arith | inr k ↦ (let later = g k in ground arith) ]),
    )

first_is-false : (a : Bytes) (c : ℕ) → first_is a c ≡ false → (s : Bytes) → a ≢ c ∷ s
unfolding first_is
first_is-false a c e s h =
    let same : first_is a c ≡ (c == c) = ap (λ x. first_is x c) h in ground arith

first_is-true : (a : Bytes) (c : ℕ) → first_is a c ≡ true → (s : Bytes) × (a ≡ c ∷ s)
unfolding first_is
first_is-true [] c e = absurd (cc)
first_is-true (b ∷ s) c e = let same : b ≡ c = ground arith in (s, ap (λ x. x ∷ s) same)

last_is-append : (s : Bytes) (c : ℕ) → last_is (s ++ c ∷ []) c ≡ true
unfolding last_is
last_is-append [] c = ground arith
last_is-append (b ∷ []) c = ground arith
last_is-append (b ∷ d ∷ s) c = last_is-append (d ∷ s) c

last_is-false : (a : Bytes) (c : ℕ) → last_is a c ≡ false → (s : Bytes) → a ≢ s ++ c ∷ []
last_is-false a c e s h =
    let same : last_is a c ≡ true = ap (λ x. last_is x c) h ∙ last_is-append s c in absurd (cc)

last_is-true : (a : Bytes) (c : ℕ) → last_is a c ≡ true → (s : Bytes) × (a ≡ s ++ c ∷ [])
unfolding last_is
last_is-true [] c e = absurd (cc)
last_is-true (b ∷ []) c e = let same : b ≡ c = ground arith in ([], ap (λ x. x ∷ []) same)
last_is-true (b ∷ d ∷ s) c e =
    let (t, same) = last_is-true (d ∷ s) c e in (b ∷ t, ap (λ x. b ∷ x) same)

-- What `fixAddr` makes of a host: with brackets if it needs them, and as it is if not.
abbrev pub Bracketed : Bytes → Bytes → Type 0
Bracketed a host =
    (NeedsBrackets a × (host ≡ b'[' ∷ (a ++ b']' ∷ []))) ⊎ ((¬ NeedsBrackets a) × (host ≡ a))

tested : Bytes → Bool → Bool → Bool → Bytes
tested a x y z = if x && not y && not z then b'[' ∷ (a ++ b']' ∷ []) else a

fix_addr-tested :
    (a : Bytes) → fix_addr a ≡ tested a (contains a (b':' ∷ [])) (first_is a b'[') (last_is a b']')
unfolding fix_addr tested contains has_prefix first_is last_is
fix_addr-tested [] = refl
fix_addr-tested (c ∷ s) = refl

tested-Bracketed :
    (a : Bytes) → Bracketed a (tested a (contains a (b':' ∷ [])) (first_is a b'[') (last_is a b']'))
unfolding tested
tested-Bracketed a = elim (Bool-cases (contains a (b':' ∷ []))) [
  | inr x ↦
      let never : ¬ NeedsBrackets a = λ h. let e = (contains-Has a b':').1 (h.0) in absurd (cc) in
      rw x (inr (never, refl))
  | inl x ↦ elim (Bool-cases (first_is a b'[')) [
    | inl y ↦
        let (s, e) = first_is-true a b'[' y in
        let never : ¬ NeedsBrackets a = λ h. h.1 s e in rw (x, y) (inr (never, refl))
    | inr y ↦ elim (Bool-cases (last_is a b']')) [
      | inl z ↦
          let (s, e) = last_is-true a b']' z in
          let never : ¬ NeedsBrackets a = λ h. h.2 s e in rw (x, y, z) (inr (never, refl))
      | inr z ↦
          rw (x, y, z)
            (inl
              (((contains-Has a b':').0 x, first_is-false a b'[' y, last_is-false a b']' z), refl))
    ]
  ]
]

-- The address that is dialled or listened on is cut at its last colon into the host and the port. The
-- host has brackets around it exactly if it has a colon and neither begins nor ends with a bracket, and
-- is as given otherwise; and the port, which has at most 64 bits, is read back.
pub host_port-Bracketed :
    (a : Bytes) (p : ℕ)
    → p ≤ max_uint64
    → (host : Bytes) × Bracketed a host
      × (cut_last b':' (host_port a p) ≡ some (host, format_uint p))
      × (parse_uint (format_uint p) 64 ≡ ok p)
host_port-Bracketed a p h =
    let (cut, read) = host_port_parts a p h in
    (fix_addr a, subst (Bracketed a) (sym (fix_addr-tested a)) (tested-Bracketed a), cut, read)
