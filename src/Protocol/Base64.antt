-- ===== src/Protocol/Base64.antt =====
-- `base64.StdEncoding`, as gost/proxy/client/ws.go encodes with it and gost/proxy/server/ws.go and
-- mws.go decode.
pub mod Laws
use gost_plugin.Common.{
  Bool, Bytes, Option, [], false, if◌then◌else◌, leb, ltb, none, some, true, ℕ, ◌%◌, ◌&&◌, ◌*◌, ◌+◌,
  ◌-◌, ◌/◌, ◌==◌, ◌||◌, ◌∷◌,
}

unfoldable pub digit : ℕ → ℕ
digit n =
    if ltb n 26
    then b'A' + n
    else if ltb n 52
    then b'a' + (n - 26)
    else if ltb n 62
    then b'0' + (n - 52)
    else if n == 62
    then b'+'
    else b'/'

abbrev pub padding : ℕ
padding = b'='

-- `EncodeToString`
unfoldable pub encode : Bytes → Bytes
encode [] = []
encode (a ∷ []) = digit (a / 4) ∷ digit (a % 4 * 16) ∷ padding ∷ padding ∷ []
encode (a ∷ b ∷ []) =
    digit (a / 4) ∷ digit (a % 4 * 16 + b / 16) ∷ digit (b % 16 * 4) ∷ padding ∷ []
encode (a ∷ b ∷ c ∷ s) =
    digit (a / 4)
    ∷ digit (a % 4 * 16 + b / 16)
    ∷ digit (b % 16 * 4 + c / 64)
    ∷ digit (c % 64)
    ∷ encode s

unfoldable pub value : ℕ → Option ℕ
value c =
    if leb b'A' c && leb c b'Z'
    then some (c - b'A')
    else if leb b'a' c && leb c b'z'
    then some (c - b'a' + 26)
    else if leb b'0' c && leb c b'9'
    then some (c - b'0' + 52)
    else if c == b'+'
    then some 62
    else if c == b'/'
    then some 63
    else none

-- The bytes decoded so far, and whether an error is returned with them.
abbrev pub Decoded : Type 0
Decoded = Bytes × Bool

abbrev pub corrupt : Decoded
corrupt = ([], true)

abbrev pub not_empty : Bytes → Bool
not_empty [] = false
not_empty (c ∷ s) = true

-- The end of a quantum of four characters: three bytes and what follows, or padding. Bytes behind
-- the padding are an error, which does not take the decoded bytes back.
unfoldable pub last_digit : ℕ → ℕ → ℕ → ℕ → Bytes → Decoded → Decoded
last_digit x y z c s rest = elim (value c) [
  | some w ↦ ((x * 4 + y / 16) ∷ (y % 16 * 16 + z / 4) ∷ (z % 4 * 64 + w) ∷ rest.0, rest.1)
  | none ↦
      if c == padding then ((x * 4 + y / 16) ∷ (y % 16 * 16 + z / 4) ∷ [], not_empty s) else corrupt
]

unfoldable pub quantum : ℕ → ℕ → ℕ → ℕ → Bytes → Decoded → Decoded
quantum a b c d s rest = elim (value a) [
  | none ↦ corrupt
  | some x ↦ elim (value b) [
    | none ↦ corrupt
    | some y ↦ elim (value c) [
      | some z ↦ last_digit x y z d s rest
      | none ↦
          if c == padding && d == padding then ((x * 4 + y / 16) ∷ [], not_empty s) else corrupt
    ]
  ]
]

-- The text with its line ends removed.
unfoldable pub decode_quanta : Bytes → Decoded
decode_quanta [] = ([], false)
decode_quanta (a ∷ b ∷ c ∷ d ∷ s) = quantum a b c d s (decode_quanta s)
decode_quanta (a ∷ s) = corrupt

unfoldable pub strip : Bytes → Bytes
strip [] = []
strip (c ∷ s) = if c == b'\n' || c == b'\r' then strip s else c ∷ strip s

-- `DecodeString`
unfoldable pub decode : Bytes → Decoded
decode s = decode_quanta (strip s)
