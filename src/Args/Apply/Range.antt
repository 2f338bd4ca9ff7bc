-- ===== src/Args/Apply/Range.antt =====
-- The widths of the numbers in the options.
use gost_plugin.Args.Addr.{Options}
use gost_plugin.Args.Apply.{apply_args, number}
use gost_plugin.Args.Apply.Laws.{apply_args-Applied}
use gost_plugin.Args.Map.{Entries, get}
use gost_plugin.Args.Number.{max_uint64}
use gost_plugin.Args.Number.Laws.{parse_uint_iff}
use gost_plugin.Args.Result.{ok, ok-injective}
use gost_plugin.Common.{Bytes, Option-cases, arith, inl, inr, none, some, ℕ, ◌-◌, ◌^◌, ◌≡◌, ◌≤◌}

number-bound :
    (args : Entries) (name : Bytes) (bits old n : ℕ)
    → 2 ^ bits - 1 ≤ max_uint64
    → number args name bits old ≡ ok n
    → old ≤ 2 ^ bits - 1
    → n ≤ 2 ^ bits - 1
unfolding number
number-bound args name bits old n small h fits = elim (Option-cases (get (some args) name)) [
  | inl absent ↦ omega (arith, ok-injective (rw (absent, number) at h))
  | inr (c, e) ↦ ((parse_uint_iff c bits n small).0 (rw (e, number) at h)).3
]

-- The widths by which the numbers are parsed.
pub record InRange (o : Options) : Type 0 where
  pub mux : o.mux ≤ 2 ^ 16 - 1
  pub local_port : o.local_port ≤ 2 ^ 32 - 1
  pub remote_port : o.remote_port ≤ 2 ^ 32 - 1
  pub log_level : o.log_level ≤ 2 ^ 32 - 1
  pub ed : o.ed ≤ 2 ^ 32 - 1

-- Options in range stay in range, whatever the arguments are.
pub apply_args-InRange :
    (args : Entries) (o o' : Options) → apply_args args o ≡ (o', none) → InRange o → InRange o'
apply_args-InRange args o o' h v =
    let a = apply_args-Applied args o o' h in
    record {
      mux = number-bound args _ 16 _ _ (omega arith) a.mux v.mux;
      local_port = number-bound args _ 32 _ _ (omega arith) a.local_port v.local_port;
      remote_port = number-bound args _ 32 _ _ (omega arith) a.remote_port v.remote_port;
      log_level = number-bound args _ 32 _ _ (omega arith) a.log_level v.log_level;
      ed = number-bound args _ 32 _ _ (omega arith) a.ed v.ed;
    }
