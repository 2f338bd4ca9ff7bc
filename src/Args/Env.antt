-- ===== src/Args/Env.antt =====
-- `parseEnv` of args/args.go.
use gost_plugin.Common.{Bool, Bytes, [], codes, false, if◌then◌else◌, true, ◌∷◌}
use gost_plugin.Args.Map.{Entries, add, assign}
use gost_plugin.Args.Plugin.{parse_plugin_options}
use gost_plugin.Args.Result.{Result, ok, ◌>>=◌}

-- `os.Getenv` of the five variables that are read; an unset variable reads as the empty text.
pub record Env : Type 0 where
  pub ss_remote_host : Bytes
  pub ss_remote_port : Bytes
  pub ss_local_host : Bytes
  pub ss_local_port : Bytes
  pub ss_plugin_options : Bytes

abbrev pub is_empty : Bytes → Bool
is_empty [] = true
is_empty (c ∷ s) = false

-- `for k, v := range other { opts[k] = v }`
unfoldable pub merge : Entries → Entries → Entries
unfolding assign
merge opts [] = opts
merge opts ((k, vs) ∷ other) = merge (assign opts k vs) other

-- What SIP003 hands over in the four address variables.
unfoldable pub address_opts : Env → Entries
unfolding add
address_opts env =
    let a = add [] (codes "remoteAddr") env.ss_remote_host in
    let b = add a (codes "remotePort") env.ss_remote_port in
    let c = add b (codes "localAddr") env.ss_local_host in
    add c (codes "localPort") env.ss_local_port

-- The fourth guard reads SS_LOCAL_HOST again, as the source does.
unfoldable pub parse_env : Env → Result Entries
unfolding merge address_opts parse_plugin_options
parse_env env =
    if is_empty env.ss_remote_host
    then ok []
    else if is_empty env.ss_remote_port
    then ok []
    else if is_empty env.ss_local_host
    then ok []
    else if is_empty env.ss_local_host
    then ok []
    else if is_empty env.ss_plugin_options
    then ok (address_opts env)
    else (do
      other ← parse_plugin_options env.ss_plugin_options
      ok (merge (address_opts env) other))
