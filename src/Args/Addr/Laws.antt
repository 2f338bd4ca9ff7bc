-- ===== src/Args/Addr/Laws.antt =====
-- The address texts: brackets are put once, and the port is what stands behind the last colon.
use gost_plugin.Args.Addr.{first_is, fix_addr, host_port}
use gost_plugin.Args.Number.{format_uint, max_uint64, parse_uint}
use gost_plugin.Args.Number.Laws.{IsDigit, format_uint-IsDigit, parse_uint-format_uint}
use gost_plugin.Args.Result.{ok, ok-injective}
use gost_plugin.Common.{
  All, Bytes, Option, [], ap, arith, if◌then◌else◌, none, refl, some, some-eq, sym, ℕ, ◌++◌, ◌==◌,
  ◌∙◌, ◌∷◌, ◌≡◌, ◌≢◌, ◌≤◌,
}

-- `fixAddr` puts no second pair of brackets.
pub fix_addr-fix_addr : (a : Bytes) → fix_addr (fix_addr a) ≡ fix_addr a
unfolding fix_addr first_is
fix_addr-fix_addr [] = refl
fix_addr-fix_addr (c ∷ s) = ground arith

-- A text is cut at the last byte `c`.
unfoldable pub cut_last : ℕ → Bytes → Option (Bytes × Bytes)
cut_last c [] = none
cut_last c (b ∷ s) = elim (cut_last c s) [
  | some (x, y) ↦ some (b ∷ x, y)
  | none ↦ if b == c then some ([], s) else none
]

cut_last-none : (c : ℕ) (y : Bytes) → All (λ b. b ≢ c) y → cut_last c y ≡ none
unfolding cut_last
cut_last-none c [] h = refl
cut_last-none c (b ∷ y) (n, h) = rw (cut_last-none c y h) (ground arith)

cut_last-append :
    (c : ℕ) (x y : Bytes) → All (λ b. b ≢ c) y → cut_last c (x ++ (c ∷ y)) ≡ some (x, y)
unfolding cut_last
cut_last-append c [] y h = rw (cut_last-none c y h) (ground arith)
cut_last-append c (b ∷ x) y h = rw (cut_last-append c x y h) refl

digits-ne-colon : (s : Bytes) → All IsDigit s → All (λ b. b ≢ b':') s
digits-ne-colon [] h = tt
digits-ne-colon (c ∷ s) ((lo, hi), h) = ((λ e. omega arith), digits-ne-colon s h)

-- The text that is dialled or listened on names what `fixAddr` makes of the host before its last colon,
-- and behind it the port, which is read back if it has 64 bits.
pub host_port_parts :
    (a : Bytes) (p : ℕ)
    → p ≤ max_uint64
    → (cut_last b':' (host_port a p) ≡ some (fix_addr a, format_uint p))
      × (parse_uint (format_uint p) 64 ≡ ok p)
unfolding host_port
host_port_parts a p h = (
  cut_last-append b':' (fix_addr a) (format_uint p)
      (digits-ne-colon (format_uint p) (format_uint-IsDigit p)),
  parse_uint-format_uint p 64 h (omega arith),
)

-- Different ports, or hosts that differ once bracketed, give different texts.
pub host_port-injective :
    (a b : Bytes) (p q : ℕ)
    → p ≤ max_uint64
    → q ≤ max_uint64
    → host_port a p ≡ host_port b q
    → (fix_addr a ≡ fix_addr b) × (p ≡ q)
host_port-injective a b p q hp hq e =
    let (ca, pa) = host_port_parts a p hp in
    let (cb, pb) = host_port_parts b q hq in
    let parts : ◌≡◌ {A = Bytes × Bytes} (fix_addr a, format_uint p) (fix_addr b, format_uint q) =
      some-eq (sym ca ∙ ap (cut_last b':') e ∙ cb) in
    (
      ap (λ x. x.0) parts,
      ok-injective (sym pa ∙ ap (λ s. parse_uint s 64) (ap (λ x. x.1) parts) ∙ pb),
    )
