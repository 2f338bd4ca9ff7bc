-- ===== src/Args/Apply.antt =====
-- `ApplyOptions` of args/args.go: the options as it leaves them, and the error that it returns.
pub mod Laws
pub mod Range
pub mod Unset
use gost_plugin.Args.Addr.{Options}
use gost_plugin.Args.Env.{Env, parse_env}
use gost_plugin.Args.Map.{Entries, get}
use gost_plugin.Args.Number.{parse_uint}
use gost_plugin.Args.Result.{ArgError, Result, err, ok}
use gost_plugin.Common.{Bool, Bytes, Option, codes, if◌then◌else◌, none, some, true, ℕ}

-- The options are written through a pointer, so what was written before an error stays.
abbrev pub Outcome : Type 0
Outcome = Options × Option ArgError

module _ (args : Entries) where
  -- What a field holds behind `if c, b := args.Get(name); b { field = c }`.
  unfoldable pub text : Bytes → Bytes → Bytes
  unfolding get
  text name old = elim (get (some args) name) [ none ↦ old | some c ↦ c ]

  -- The same for `if _, b := args.Get(name); b { field = true }`.
  unfoldable pub flag : Bytes → Bool → Bool
  unfolding get
  flag name old = elim (get (some args) name) [ none ↦ old | some c ↦ true ]

  -- The same for a field that takes `strconv.ParseUint(c, 10, bits)`.
  unfoldable pub number : Bytes → ℕ → ℕ → Result ℕ
  unfolding get parse_uint
  number name bits old = elim (get (some args) name) [ none ↦ ok old | some c ↦ parse_uint c bits ]

-- `if err != nil { return ctx, err }`, and what follows.
abbrev pub with_number : Result ℕ → Options → (ℕ → Outcome) → Outcome
with_number (ok n) o k = k n
with_number (err e) o k = (o, some e)

-- "localAddr" and "localPort" write these; a server forwards to what SIP003 calls local.
abbrev pub put_local_addr : Entries → Options → Options
put_local_addr args o =
    if o.server
    then record o { remote_addr = text args (codes "localAddr") o.remote_addr }
    else record o { local_addr = text args (codes "localAddr") o.local_addr }

abbrev pub put_remote_addr : Entries → Options → Options
put_remote_addr args o =
    if o.server
    then record o { local_addr = text args (codes "remoteAddr") o.local_addr }
    else record o { remote_addr = text args (codes "remoteAddr") o.remote_addr }

abbrev pub put_local_port : ℕ → Options → Options
put_local_port n o = if o.server then record o { remote_port = n } else record o { local_port = n }

abbrev pub put_remote_port : ℕ → Options → Options
put_remote_port n o = if o.server then record o { local_port = n } else record o { remote_port = n }

-- From "logLevel" on.
unfoldable pub apply_rest : Entries → Options → Outcome
apply_rest args o = with_number (number args (codes "logLevel") 32 o.log_level) o λ level.
    let o = record o {
      log_level = level;
      fast_open = flag args (codes "fastOpen") o.fast_open;
      vpn = flag args (codes "__android_vpn") o.vpn;
    } in
    with_number (number args (codes "ed") 32 o.ed) o λ ed. (
      record o {
        ed = ed;
        service_name = text args (codes "serviceName") o.service_name;
        fingerprint = text args (codes "fingerprint") o.fingerprint;
      },
      none,
    )

-- From "remoteAddr" on.
unfoldable pub apply_remote : Entries → Options → Outcome
apply_remote args o =
    let o = put_remote_addr args o in
    with_number
      (number args (codes "remotePort") 32 (if o.server then o.local_port else o.remote_port)) o
      λ port. apply_rest args (put_remote_port port o)

-- From "localAddr" on.
unfoldable pub apply_local : Entries → Options → Outcome
apply_local args o =
    let o = put_local_addr args o in
    with_number
      (number args (codes "localPort") 32 (if o.server then o.remote_port else o.local_port)) o
      λ port. apply_remote args (put_local_port port o)

unfoldable pub apply_args : Entries → Options → Outcome
apply_args args o =
    let o = record o {
      mode = text args (codes "mode") o.mode;
      nocomp = flag args (codes "nocomp") o.nocomp;
      insecure = flag args (codes "insecure") o.insecure;
    } in
    with_number (number args (codes "mux") 16 o.mux) o λ mux. apply_local args (record o {
      mux = mux;
      hostname = text args (codes "host") o.hostname;
      path = text args (codes "path") o.path;
      cert = text args (codes "cert") o.cert;
      key = text args (codes "key") o.key;
      server = flag args (codes "server") o.server;
      server_name = text args (codes "serverName") o.server_name;
    })

abbrev pub apply_parsed : Result Entries → Options → Outcome
apply_parsed (ok args) o = apply_args args o
apply_parsed (err e) o = (o, some e)

unfoldable pub apply_options : Env → Options → Outcome
apply_options env o = apply_parsed (parse_env env) o
