-- ===== src/Tests/Net.antt =====
-- net/url and net/http for the tests: a URL asks for what stands behind its authority, and `ServeMux` runs
-- its handler for the very pattern.
use gost_plugin.Common.{
  Bool, Bytes, [], ap, arith, drop, equal, equal_refl, if◌then◌else◌, not, refl, some, true, ◌&&◌,
  ◌++◌, ◌==◌, ◌∷◌, ◌≡◌,
}
use gost_plugin.Web.{Documented, Web, is_plain}

-- An authority without a slash.
unfoldable pub no_slash : Bytes → Bool
no_slash [] = true
no_slash (c ∷ s) = let rest = no_slash s in not (c == b'/') && rest

unfoldable pub from_slash : Bytes → Bytes
from_slash [] = []
from_slash (c ∷ s) = let rest = from_slash s in if c == b'/' then c ∷ s else rest

abbrev pub simple_web : Web
simple_web = record {
  is_authority = no_slash;
  requested = λ url. some (from_slash (drop 6 url));
  sent_path = λ path. some path;
  routed = equal;
  own_status = λ pattern path. 404;
}

from_slash-plain : (path : Bytes) → is_plain path ≡ true → from_slash path ≡ path
unfolding from_slash is_plain
from_slash-plain [] h = refl
from_slash-plain (c ∷ []) h = ground arith
from_slash-plain (c ∷ d ∷ s) h = ground arith

from_slash-append :
    (authority path : Bytes)
    → no_slash authority ≡ true
    → is_plain path ≡ true
    → from_slash (authority ++ path) ≡ path
unfolding from_slash no_slash
from_slash-append [] path h k = from_slash-plain path k
from_slash-append (c ∷ s) path h k = ground (arith, from_slash-append s path)

pub simple_web-Documented : Documented simple_web
simple_web-Documented = record {
  requested-plain = λ authority path h k. ap some (from_slash-append authority path h k);
  sent_path-plain = λ path h. refl;
  routed-plain = λ path h. equal_refl path;
  own_status-plain = λ pattern path h k e. refl;
}
