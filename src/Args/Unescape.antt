-- ===== src/Args/Unescape.antt =====
-- `indexUnescaped` of args/args.go.
pub mod Laws
use gost_plugin.Common.{Bytes, [], contains_byte, if◌then◌else◌, ℕ, ◌++◌, ◌+◌, ◌==◌, ◌∷◌}
use gost_plugin.Args.Result.{Result, err, nothing_follows, ok}

abbrev pub backslash : ℕ
backslash = b'\\'

-- The `for` loop: `i` is its counter, `unesc` what it has copied, and the text is `s[i:]`.
-- `all` is the whole of `s`, which the error message quotes.
unfoldable pub unescape_loop : Bytes → Bytes → Bytes → ℕ → Bytes → Result (ℕ × Bytes)
unfolding contains_byte
unescape_loop all term [] i unesc = ok (i, unesc)
unescape_loop all term (b ∷ []) i unesc =
    if contains_byte term b
    then ok (i, unesc)
    else if b == backslash
    then err (nothing_follows all)
    else ok (i + 1, unesc ++ b ∷ [])
unescape_loop all term (b ∷ c ∷ s) i unesc =
    let escaped = unescape_loop all term s (i + 2) (unesc ++ c ∷ []) in
    let plain = unescape_loop all term (c ∷ s) (i + 1) (unesc ++ b ∷ []) in
    if contains_byte term b then ok (i, unesc) else if b == backslash then escaped else plain

unfoldable pub index_unescaped : Bytes → Bytes → Result (ℕ × Bytes)
unfolding unescape_loop
index_unescaped s term = unescape_loop s term s 0 []
