-- ===== src/Args/Apply/Unset.antt =====
-- `ApplyOptions` when variables are not set.
use gost_plugin.Args.Addr.{Options}
use gost_plugin.Args.Apply.{
  apply_args, apply_local, apply_options, apply_remote, apply_rest, flag, number, text,
}
use gost_plugin.Args.Env.{Env, address_opts, parse_env}
use gost_plugin.Args.Map.{Entries, assign, get, lookup}
use gost_plugin.Args.Number.{parse_uint}
use gost_plugin.Args.Result.{bad_syntax, ok}
use gost_plugin.Common.{
  Bool, Bool-cases, Bytes, [], ap, arith, codes, equal, inl, inr, none, refl, some, sym, ℕ, ◌∙◌,
  ◌≡◌, ◌≢◌, ◌⊎◌,
}

text-nil : (name old : Bytes) → text [] name old ≡ old
unfolding text lookup
text-nil name old = refl

flag-nil : (name : Bytes) (old : Bool) → flag [] name old ≡ old
unfolding flag lookup
flag-nil name old = refl

number-nil : (name : Bytes) (bits old : ℕ) → number [] name bits old ≡ ok old
unfolding number lookup
number-nil name bits old = refl

ruleset no_args = (text-nil, flag-nil, number-nil)

apply_rest-nil : (o : Options) → apply_rest [] o ≡ (o, none)
unfolding apply_rest
apply_rest-nil o = simp no_args

apply_remote-nil : (o : Options) → apply_remote [] o ≡ (o, none)
unfolding apply_remote
apply_remote-nil o = elim (Bool-cases o.server) [
  | inl s ↦
      simp (s, no_args, apply_rest-nil) (ap (λ (b : Bool). (record o { server = b }, none)) (sym s))
  | inr s ↦
      simp (s, no_args, apply_rest-nil) (ap (λ (b : Bool). (record o { server = b }, none)) (sym s))
]

apply_local-nil : (o : Options) → apply_local [] o ≡ (o, none)
unfolding apply_local
apply_local-nil o = elim (Bool-cases o.server) [
  | inl s ↦
      simp (s, no_args, apply_remote-nil)
        (ap (λ (b : Bool). (record o { server = b }, none)) (sym s))
  | inr s ↦
      simp (s, no_args, apply_remote-nil)
        (ap (λ (b : Bool). (record o { server = b }, none)) (sym s))
]

apply_args-nil : (o : Options) → apply_args [] o ≡ (o, none)
unfolding apply_args
apply_args-nil o = simp (no_args, apply_local-nil)

-- Where one of the three variables that are tested is not set, nothing is changed or refused.
pub apply_options-unset :
    (env : Env) (o : Options)
    → (env.ss_remote_host ≡ []) ⊎ ((env.ss_remote_port ≡ []) ⊎ (env.ss_local_host ≡ []))
    → apply_options env o ≡ (o, none)
unfolding apply_options parse_env
apply_options-unset env o h = rw (parse_env-nil h) (apply_args-nil o)
  where
    parse_env-nil :
        (env.ss_remote_host ≡ []) ⊎ ((env.ss_remote_port ≡ []) ⊎ (env.ss_local_host ≡ []))
        → parse_env env ≡ ok []
    parse_env-nil h = ground arith

address_opts-get :
    (env : Env)
    → (get (some (address_opts env)) (codes "mux") ≡ none)
      × (get (some (address_opts env)) (codes "localPort") ≡ some env.ss_local_port)
unfolding address_opts get lookup assign equal
address_opts-get env = (refl, refl)

apply_local-bad_port :
    (args : Entries) (o : Options)
    → get (some args) (codes "localPort") ≡ some []
    → (apply_local args o).1 ≡ some (bad_syntax [])
unfolding apply_local number parse_uint
apply_local-bad_port args o e = ground arith

-- SS_LOCAL_PORT is the one variable whose absence is not tested: where the other three are set, and
-- there are no plugin options, the call fails on the empty number instead of ignoring them.
pub apply_options-no_local_port :
    (env : Env) (o : Options)
    → env.ss_remote_host ≢ []
    → env.ss_remote_port ≢ []
    → env.ss_local_host ≢ []
    → env.ss_local_port ≡ []
    → env.ss_plugin_options ≡ []
    → (apply_options env o).1 ≡ some (bad_syntax [])
unfolding apply_options apply_args number parse_env
apply_options-no_local_port env o rh rp lh lp po =
    let (mux, port) = address_opts-get env in
    rw parsed (rw (mux, number) (apply_local-bad_port (address_opts env) _ (port ∙ ap some lp)))
  where
    parsed : parse_env env ≡ ok (address_opts env)
    parsed = ground arith
