-- ===== src/Web.antt =====
-- net/url and net/http as the program meets them: what becomes of the path that the client asks for, and
-- whether the server's `http.ServeMux` runs the handler that was registered. Both are foreign code.
use gost_plugin.Common.{
  Bool, Bytes, Option, [], codes, false, leb, not, some, true, ℕ, ◌&&◌, ◌++◌, ◌==◌, ◌||◌, ◌∷◌, ◌≡◌,
}

-- `is_authority`: whether a text is the host and the port of a URL, as `url.Parse` reads it.
-- `requested`: the path, in `r.URL` of the server, of the request that the dial of a WebSocket to the text
-- of a URL sends; `none` if no request is sent.
-- `sent_path`: the same for a request of HTTP/2 whose `url.URL` has this path.
-- `routed`: whether a `ServeMux` with one handler, at a pattern, runs it for a request with a path.
-- `own_status`: the status with which it answers when it does not.
pub record Web : Type 0 where
  pub is_authority : Bytes → Bool
  pub requested : Bytes → Option Bytes
  pub sent_path : Bytes → Option Bytes
  pub routed : Bytes → Bytes → Bool
  pub own_status : Bytes → Bytes → ℕ

-- A letter, a digit, "-" or "_".
abbrev pub is_plain_byte : ℕ → Bool
is_plain_byte c =
    (leb b'a' c && leb c b'z')
    || (leb b'A' c && leb c b'Z')
    || (leb b'0' c && leb c b'9')
    || c == b'-'
    || c == b'_'

-- `start` is true behind a slash.
unfoldable pub is_plain_rest : Bool → Bytes → Bool
is_plain_rest start [] = not start
is_plain_rest start (c ∷ s) =
    let segment = is_plain_rest false s in
    let next = is_plain_rest true s in
    (c == b'/' && not start && next) || (is_plain_byte c && segment)

-- A path that means itself in a URL and as a pattern: "/", or segments of plain bytes, each behind a
-- slash. It has nothing to escape, no query, no wildcard, no "." and "..", and no slash at its end.
unfoldable pub is_plain : Bytes → Bool
unfolding is_plain_rest
is_plain [] = false
is_plain (c ∷ []) = c == b'/'
is_plain (c ∷ d ∷ s) = c == b'/' && is_plain_rest true (d ∷ s)

-- What the documentation of both packages says of such paths.
pub record Documented (web : Web) : Type 0 where
  pub requested-plain :
      (authority path : Bytes)
      → web.is_authority authority ≡ true
      → is_plain path ≡ true
      → web.requested (codes "wss://" ++ (authority ++ path)) ≡ some path
  pub sent_path-plain : (path : Bytes) → is_plain path ≡ true → web.sent_path path ≡ some path
  pub routed-plain : (path : Bytes) → is_plain path ≡ true → web.routed path path ≡ true
  pub own_status-plain :
      (pattern path : Bytes)
      → is_plain pattern ≡ true
      → is_plain path ≡ true
      → web.routed pattern path ≡ false
      → web.own_status pattern path ≡ 404
