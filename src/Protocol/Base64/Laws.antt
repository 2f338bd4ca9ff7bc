-- ===== src/Protocol/Base64/Laws.antt =====
-- Decoding undoes encoding.
use gost_plugin.Common.{
  All, Bool, Bytes, [], ap, arith, false, none, refl, some, ℕ, ◌%◌, ◌*◌, ◌+◌, ◌/◌, ◌<◌, ◌==◌, ◌||◌,
  ◌∙◌, ◌∷◌, ◌≡◌,
}
use gost_plugin.Protocol.Base64.{
  Decoded, decode, decode_quanta, digit, encode, last_digit, not_empty, padding, quantum, strip,
  value,
}

abbrev pub IsByte : ℕ → Type 0
IsByte b = b < 256

value-digit : (n : ℕ) → n < 64 → value (digit n) ≡ some n
unfolding value digit
value-digit n h = ground arith

digit-kept : (n : ℕ) → n < 64 → (digit n == b'\n' || digit n == b'\r') ≡ false
unfolding digit
digit-kept n h = ground arith

strip-digit : (n : ℕ) (s : Bytes) → n < 64 → strip (digit n ∷ s) ≡ digit n ∷ strip s
unfolding strip
strip-digit n s h = rw (digit-kept n h) refl

value-padding : value padding ≡ none
unfolding value
value-padding = refl

strip-padding : (s : Bytes) → strip (padding ∷ s) ≡ padding ∷ strip s
unfolding strip
strip-padding s = refl

strip_nil : strip [] ≡ []
unfolding strip
strip_nil = refl

-- The text of an encoding has no line end.
strip-encode : (s : Bytes) → All IsByte s → strip (encode s) ≡ encode s
unfolding encode
strip-encode [] h = strip_nil
strip-encode (a ∷ []) h =
    rw (strip-digit (a / 4) _ (omega arith), strip-digit (a % 4 * 16) _ (omega arith))
      (rw (strip-padding, strip-padding, strip_nil))
strip-encode (a ∷ b ∷ []) h =
    rw
      (
        strip-digit (a / 4) _ (omega arith),
        strip-digit (a % 4 * 16 + b / 16) _ (omega arith),
        strip-digit (b % 16 * 4) _ (omega arith),
      )
      (rw (strip-padding, strip_nil))
strip-encode (a ∷ b ∷ c ∷ s) (ha, (hb, (hc, h))) = rw (
  strip-digit (a / 4) _ (omega arith),
  strip-digit (a % 4 * 16 + b / 16) _ (omega arith),
  strip-digit (b % 16 * 4 + c / 64) _ (omega arith),
  strip-digit (c % 64) _ (omega arith),
  strip-encode s h,
)

module _ (a b c d x y : ℕ) (s : Bytes) (rest : Decoded) (va : value a ≡ some x)
    (vb : value b ≡ some y) where
  quantum_one :
      c ≡ padding → d ≡ padding → quantum a b c d s rest ≡ ((x * 4 + y / 16) ∷ [], not_empty s)
  unfolding quantum
  quantum_one ec ed = ground (arith, value-padding)

  quantum_two :
      (z : ℕ)
      → value c ≡ some z
      → d ≡ padding
      → quantum a b c d s rest ≡ ((x * 4 + y / 16) ∷ (y % 16 * 16 + z / 4) ∷ [], not_empty s)
  unfolding quantum last_digit
  quantum_two z vc ed = ground (arith, value-padding)

  quantum_three :
      (z w : ℕ)
      → value c ≡ some z
      → value d ≡ some w
      → quantum a b c d s rest
        ≡ ((x * 4 + y / 16) ∷ (y % 16 * 16 + z / 4) ∷ (z % 4 * 64 + w) ∷ rest.0, rest.1)
  unfolding quantum last_digit
  quantum_three z w vc vd = ground arith

decoded-eq :
    (x x' : ℕ) (s s' : Bytes) (f f' : Bool)
    → x ≡ x'
    → s ≡ s'
    → f ≡ f'
    → ◌≡◌ {A = Decoded} (x ∷ s, f) (x' ∷ s', f')
decoded-eq x x' s s' f f' e g h = cc

three-eq :
    (a a' b b' c c' : ℕ) (r : Decoded) (s : Bytes)
    → a ≡ a'
    → b ≡ b'
    → c ≡ c'
    → r ≡ (s, false)
    → ◌≡◌ {A = Decoded} (a ∷ b ∷ c ∷ r.0, r.1) (a' ∷ b' ∷ c' ∷ s, false)
three-eq a a' b b' c c' r s e f g h = rw (e, f, g, h)

decode_quanta-encode : (s : Bytes) → All IsByte s → decode_quanta (encode s) ≡ (s, false)
unfolding decode_quanta encode
decode_quanta-encode [] h = refl
decode_quanta-encode (a ∷ []) h =
    quantum_one _ _ _ _ _ _ [] ([], false) (value-digit (a / 4) (omega arith))
      (value-digit (a % 4 * 16) (omega arith)) refl refl
    ∙ decoded-eq _ _ _ _ _ _ (omega arith) refl refl
decode_quanta-encode (a ∷ b ∷ []) h =
    quantum_two _ _ _ _ _ _ [] ([], false) (value-digit (a / 4) (omega arith))
      (value-digit (a % 4 * 16 + b / 16) (omega arith)) _ (value-digit (b % 16 * 4) (omega arith))
      refl
    ∙ decoded-eq _ _ _ _ _ _ (omega arith) (ap (λ x. x ∷ []) (omega arith)) refl
decode_quanta-encode (a ∷ b ∷ c ∷ s) (ha, (hb, (hc, h))) =
    quantum_three _ _ _ _ _ _ (encode s) _ (value-digit (a / 4) (omega arith))
      (value-digit (a % 4 * 16 + b / 16) (omega arith)) _ _
      (value-digit (b % 16 * 4 + c / 64) (omega arith)) (value-digit (c % 64) (omega arith))
    ∙ three-eq _ _ _ _ _ _ _ _ (omega arith) (omega arith) (omega arith) (decode_quanta-encode s h)

-- Every list of bytes is decoded from its encoding, with no error.
pub decode-encode : (s : Bytes) → All IsByte s → decode (encode s) ≡ (s, false)
unfolding decode
decode-encode s h = rw (strip-encode s h) (decode_quanta-encode s h)
