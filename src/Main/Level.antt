-- ===== src/Main/Level.antt =====
-- The log level of a process.
use gost_plugin.Args.Addr.{Options}
use gost_plugin.Args.Env.{Env}
use gost_plugin.Common.{arith, refl, ◌≡◌, ◌≤◌}
use gost_plugin.Main.{start}

-- The level that is set is one of the seven levels, and the environment has no say in it: with other
-- plugin options, and so with another `logLevel`, it is the same.
pub start-level :
    (env other_env : Env) (o : Options)
    → ((start env o).level ≤ 6) × ((start env o).level ≡ (start other_env o).level)
unfolding start
start-level env other_env o = (ground arith, refl)
