-- ===== src/Args/Number.antt =====
-- `strconv.ParseUint(s, 10, bits)` and the verb `%d` on a `uint`, as args/args.go uses them.
pub mod Laws
use gost_plugin.Common.{
  Bool, Bytes, [], if◌then◌else◌, leb, ltb, not, suc, zero, ℕ, ◌%◌, ◌&&◌, ◌*◌, ◌+◌, ◌-◌, ◌/◌, ◌^◌,
  ◌||◌, ◌∷◌,
}
use gost_plugin.Args.Result.{Result, bad_syntax, err, ok, out_of_range}

abbrev pub max_uint64 : ℕ
max_uint64 = 2 ^ 64 - 1

abbrev pub is_digit : ℕ → Bool
is_digit c = leb b'0' c && leb c b'9'

-- The loop over the bytes; `max` is the largest number of `bits` bits.
unfoldable pub parse_digits : Bytes → ℕ → Bytes → ℕ → Result ℕ
parse_digits all max [] n = ok n
parse_digits all max (c ∷ s) n =
    let n1 = (n * 10 + (c - b'0')) % 2 ^ 64 in
    let rest = parse_digits all max s n1 in
    if not (is_digit c)
    then err (bad_syntax all)
    else if leb (max_uint64 / 10 + 1) n
    then err (out_of_range all)
    else if ltb n1 (n * 10) || ltb max n1
    then err (out_of_range all)
    else rest

unfoldable pub parse_uint : Bytes → ℕ → Result ℕ
unfolding parse_digits
parse_uint [] bits = err (bad_syntax [])
parse_uint (c ∷ s) bits = parse_digits (c ∷ s) (2 ^ bits - 1) (c ∷ s) 0

-- The digits of `n` in front of `out`, on fuel.
unfoldable pub print_digits : ℕ → ℕ → Bytes → Bytes
print_digits zero n out = out
print_digits (suc fuel) n out =
    let here = (b'0' + n % 10) ∷ out in
    let more = print_digits fuel (n / 10) here in if ltb n 10 then here else more

-- A number has at most as many digits as one more than its value.
unfoldable pub format_uint : ℕ → Bytes
unfolding print_digits
format_uint n = print_digits (suc n) n []
