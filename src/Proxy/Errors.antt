-- ===== src/Proxy/Errors.antt =====
-- errors/error.go: the tests on the text of an error.
use gost_plugin.Common.{Bool, Bytes, codes, contains}

unfoldable pub is_eof : Bytes → Bool
unfolding contains
is_eof err = contains err (codes "EOF")

unfoldable pub is_closed : Bytes → Bool
unfolding contains
is_closed err = contains err (codes "closed")
