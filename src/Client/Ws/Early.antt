-- ===== src/Client/Ws/Early.antt =====
-- The size of the header that carries early data.
use gost_plugin.Args.Addr.{Options}
use gost_plugin.Client.Ws.{Delayed, Wire, early, early_header, opened, too_long}
use gost_plugin.Client.Ws.Laws.{fresh, write_all, write_all-fresh}
use gost_plugin.Common.{
  All, Bool, Bytes, List, Option, [], ap, arith, false, if◌then◌else◌, length, none, refl, some,
  subst, sym, true, ℕ, ◌*◌, ◌+◌, ◌/◌, ◌∙◌, ◌∷◌, ◌≡◌, ◌≤◌,
}
use gost_plugin.Protocol.Base64.{encode}
use gost_plugin.Protocol.Base64.Laws.{IsByte}
use gost_plugin.Server.Upgrade.Laws.{header}

length-encode : (s : Bytes) → length (encode s) ≡ (length s + 2) / 3 * 4
unfolding encode
length-encode [] = refl
length-encode (a ∷ []) = refl
length-encode (a ∷ b ∷ []) = refl
length-encode (a ∷ b ∷ c ∷ s) = omega (arith, length-encode s)

not_too_long : (ed : ℕ) (b : Bytes) → too_long ed b ≡ false → length b ≤ ed
not_too_long ed b h = ground arith

early-length :
    (ed : ℕ) (b : Bytes) (t : Bool)
    → too_long ed b ≡ t
    → length (header (early_header (if t then none else some b))) ≤ (ed + 2) / 3 * 4
early-length ed b true h = omega arith
early-length ed b false h = omega (arith, length-encode b, not_too_long ed b h)

-- `MaxHeaderBytes` of `NewWSListener` in gost/proxy/server/ws.go.
abbrev pub max_header_bytes : ℕ
max_header_bytes = 2048

abbrev pub header_size : Option Bytes → ℕ
header_size protocol = length (header protocol)

early_header-early :
    (ed : ℕ) (b : Bytes)
    → (header_size (early_header (early ed b)) ≤ (ed + 2) / 3 * 4)
      × (ed ≤ 1536 → header_size (early_header (early ed b)) ≤ max_header_bytes)
early_header-early ed b =
    let bound = early-length ed b (too_long ed b) refl in (bound, λ small. omega (arith, bound))

-- Whatever is written first to a new delayed connection, the header of its handshake has at most four
-- characters for every three bytes that the option `ed` allows, rounded up; for an `ed` up to 1536
-- it alone is within the server's limit on headers.
pub write_all-header_size :
    (o : Options) (url : Bytes) (ed : ℕ) (b : Bytes) (bs : List Bytes) (d : Delayed) (w : Wire)
    → All IsByte b
    → write_all (fresh o url ed) (b ∷ bs) ≡ some d
    → d.conn ≡ some w
    → (header_size w.opened_by.protocol ≤ (ed + 2) / 3 * 4)
      × (ed ≤ 1536 → header_size w.opened_by.protocol ≤ max_header_bytes)
write_all-header_size o url ed b bs d w bytes wrote opened =
    let (d2, w2, e, c, s, p) = write_all-fresh o url ed b bs bytes in
    let same : d2 ≡ d = cc in
    let wires : some w2 ≡ some w = sym c ∙ ap (λ x. x.conn) same ∙ opened in
    let wire : w2 ≡ w = cc in
    let protocol : early_header (early ed b) ≡ w.opened_by.protocol =
      sym p ∙ ap (λ x. x.opened_by.protocol) wire in
    let (bound, fits) = early_header-early ed b in
    (
      subst (λ x. header_size x ≤ (ed + 2) / 3 * 4) protocol bound,
      λ small. subst (λ x. header_size x ≤ max_header_bytes) protocol (fits small),
    )
