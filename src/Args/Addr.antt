-- ===== src/Args/Addr.antt =====
-- `Options`, `GetLocalAddr`, `GetRemoteAddr` and `fixAddr` of args/args.go.
pub mod Laws
pub mod Brackets
use gost_plugin.Args.Number.{format_uint}
use gost_plugin.Common.{
  Bool, Bytes, [], contains, false, if◌then◌else◌, not, ℕ, ◌&&◌, ◌++◌, ◌==◌, ◌∷◌,
}

-- A `uint` has 64 bits.
pub record Options : Type 0 where
  pub local_addr : Bytes
  pub local_port : ℕ
  pub remote_addr : Bytes
  pub remote_port : ℕ
  pub hostname : Bytes
  pub mode : Bytes
  pub path : Bytes
  pub server_name : Bytes
  pub server : Bool
  pub nocomp : Bool
  pub insecure : Bool
  pub cert : Bytes
  pub key : Bytes
  pub mux : ℕ
  pub log_level : ℕ
  pub vpn : Bool
  pub fast_open : Bool
  pub ed : ℕ
  pub service_name : Bytes
  pub fingerprint : Bytes

-- `addr[0] == c` and `addr[size-1] == c`
unfoldable pub first_is : Bytes → ℕ → Bool
first_is [] c = false
first_is (b ∷ s) c = b == c

unfoldable pub last_is : Bytes → ℕ → Bool
last_is [] c = false
last_is (b ∷ []) c = b == c
last_is (b ∷ d ∷ s) c = last_is (d ∷ s) c

unfoldable pub fix_addr : Bytes → Bytes
unfolding contains first_is last_is
fix_addr [] = []
fix_addr (c ∷ s) =
    if contains (c ∷ s) (b':' ∷ []) && not (first_is (c ∷ s) b'[') && not (last_is (c ∷ s) b']')
    then b'[' ∷ ((c ∷ s) ++ b']' ∷ [])
    else c ∷ s

-- `fmt.Sprintf("%s:%d", fixAddr(addr), port)`
unfoldable pub host_port : Bytes → ℕ → Bytes
unfolding fix_addr format_uint
host_port addr port = fix_addr addr ++ (b':' ∷ format_uint port)

unfoldable pub get_local_addr : Options → Bytes
unfolding host_port
get_local_addr o = host_port o.local_addr o.local_port

unfoldable pub get_remote_addr : Options → Bytes
unfolding host_port
get_remote_addr o = host_port o.remote_addr o.remote_port
