-- ===== src/Args/Number/Laws.antt =====
-- What `parse_uint` accepts and returns, and that it reads back what `format_uint` prints.
use gost_plugin.Common.{
  All, Bool-cases, Bytes, [], ap, arith, inl, inr, ltb, refl, subst, suc, sym, true, zero, ℕ, ◌%◌,
  ◌*◌, ◌+◌, ◌-◌, ◌/◌, ◌<◌, ◌^◌, ◌↔◌, ◌∙◌, ◌∷◌, ◌≡◌, ◌≢◌, ◌≤◌,
}
use gost_plugin.Args.Number.{format_uint, max_uint64, parse_digits, parse_uint, print_digits}
use gost_plugin.Args.Result.{err-ne-ok, ok}

abbrev pub IsDigit : ℕ → Type 0
IsDigit d = (b'0' ≤ d) × (d ≤ b'9')

-- The number that digits spell behind `n`, with no bound.
abbrev pub value : ℕ → Bytes → ℕ
value n [] = n
value n (d ∷ ds) = value (n * 10 + (d - b'0')) ds

value-le : (n : ℕ) (ds : Bytes) → n ≤ value n ds
value-le n [] = omega arith
value-le n (d ∷ ds) = omega (arith, value-le (n * 10 + (d - b'0')) ds)

parse_digits_sound :
    (all s : Bytes) (max n r : ℕ)
    → n ≤ max
    → max ≤ max_uint64
    → parse_digits all max s n ≡ ok r
    → All IsDigit s × (r ≡ value n s) × (r ≤ max)
unfolding parse_digits
parse_digits_sound all [] max n r fits small h = ground arith
parse_digits_sound all (c ∷ s) max n r fits small h =
    ground (arith, parse_digits_sound all s max (n * 10 + (c - b'0')) r)

parse_digits_complete :
    (all s : Bytes) (max n : ℕ)
    → max ≤ max_uint64
    → All IsDigit s
    → value n s ≤ max
    → parse_digits all max s n ≡ ok (value n s)
unfolding parse_digits
parse_digits_complete all [] max n small _ _ = refl
parse_digits_complete all (c ∷ s) max n small (hc, hs) fits =
    let m = n * 10 + (c - b'0') in
    ground (arith, parse_digits_complete all s max m small hs fits, value-le m s)

-- A text is accepted exactly when it is one or more digits whose value fits into the bits, and the
-- result is that value.
pub parse_uint_iff :
    (s : Bytes) (bits n : ℕ)
    → 2 ^ bits - 1 ≤ max_uint64
    → (parse_uint s bits ≡ ok n) ↔ ((s ≢ []) × All IsDigit s × (n ≡ value 0 s) × (n ≤ 2 ^ bits - 1))
unfolding parse_uint
parse_uint_iff [] bits n small = ((λ h. absurd (err-ne-ok h)), λ (ne, _, _, _). absurd (ne refl))
parse_uint_iff (c ∷ s) bits n small = (
  λ h.
      let (digits, e, fits) =
        parse_digits_sound (c ∷ s) (c ∷ s) (2 ^ bits - 1) 0 n (omega arith) small h in
      ((λ e. cc), digits, e, fits),
  λ (_, digits, e, fits).
      parse_digits_complete (c ∷ s) (c ∷ s) (2 ^ bits - 1) 0 small digits (omega (arith, e, fits))
      ∙ ap ok (sym e),
)

parse_last :
    (all out : Bytes) (max n : ℕ)
    → n ≤ max
    → max ≤ max_uint64
    → parse_digits all max ((b'0' + n % 10) ∷ out) (n / 10) ≡ parse_digits all max out n
unfolding parse_digits
parse_last all out max n fits small = ground arith

parse_digits-print_digits :
    (all out : Bytes) (max fuel n : ℕ)
    → n < fuel
    → n ≤ max
    → max ≤ max_uint64
    → parse_digits all max (print_digits fuel n out) 0 ≡ parse_digits all max out n
unfolding print_digits
parse_digits-print_digits all out max zero n h fits small = absurd (omega arith)
parse_digits-print_digits all out max (suc fuel) n h fits small = elim (Bool-cases (ltb n 10)) [
  | inl few ↦ rw few (parse_first few)
  | inr many ↦ rw many (
      parse_digits-print_digits all ((b'0' + n % 10) ∷ out) max fuel (n / 10) (ground arith)
        (omega arith) small
      ∙ parse_last all out max n fits small)
]
  where
    parse_first :
        ltb n 10 ≡ true
        → parse_digits all max ((b'0' + n % 10) ∷ out) 0 ≡ parse_digits all max out n
    parse_first few =
        let e : n / 10 ≡ 0 = ground arith in
        subst
          (λ (k : ℕ). parse_digits all max ((b'0' + n % 10) ∷ out) k ≡ parse_digits all max out n) e
          (parse_last all out max n fits small)

print_digits-ne-nil : (fuel n : ℕ) (out : Bytes) → out ≢ [] → print_digits fuel n out ≢ []
unfolding print_digits
print_digits-ne-nil zero n out h = h
print_digits-ne-nil (suc fuel) n out h = elim (Bool-cases (ltb n 10)) [
  | inl few ↦ rw few (λ e. cc)
  | inr many ↦ rw many (print_digits-ne-nil fuel (n / 10) ((b'0' + n % 10) ∷ out) (λ e. cc))
]

format_uint-ne-nil : (n : ℕ) → format_uint n ≢ []
unfolding format_uint print_digits
format_uint-ne-nil n = elim (Bool-cases (ltb n 10)) [
  | inl few ↦ rw few (λ e. cc)
  | inr many ↦ rw many (print_digits-ne-nil n (n / 10) ((b'0' + n % 10) ∷ []) (λ e. cc))
]

parse_uint-parse_digits :
    (s : Bytes) (bits : ℕ) → s ≢ [] → parse_uint s bits ≡ parse_digits s (2 ^ bits - 1) s 0
unfolding parse_uint
parse_uint-parse_digits [] bits h = absurd (h refl)
parse_uint-parse_digits (c ∷ s) bits h = refl

-- A number that fits into the bits is read back from its decimal print.
pub parse_uint-format_uint :
    (n bits : ℕ)
    → n ≤ 2 ^ bits - 1
    → 2 ^ bits - 1 ≤ max_uint64
    → parse_uint (format_uint n) bits ≡ ok n
parse_uint-format_uint n bits fits small =
    parse_uint-parse_digits (format_uint n) bits (format_uint-ne-nil n)
    ∙ unfold format_uint parse_digits in
      parse_digits-print_digits (format_uint n) [] (2 ^ bits - 1) (suc n) n (omega arith) fits small

print_digits-IsDigit :
    (fuel n : ℕ) (out : Bytes) → All IsDigit out → All IsDigit (print_digits fuel n out)
unfolding print_digits
print_digits-IsDigit zero n out h = h
print_digits-IsDigit (suc fuel) n out h =
    ground (arith, print_digits-IsDigit fuel (n / 10) ((b'0' + n % 10) ∷ out))

pub format_uint-IsDigit : (n : ℕ) → All IsDigit (format_uint n)
unfolding format_uint
format_uint-IsDigit n = print_digits-IsDigit (suc n) n [] tt
