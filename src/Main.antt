-- ===== src/Main.antt =====
-- main.go: the defaults of the flags, and the start of a process up to `newHandler`.
pub mod Level
pub mod Run
use gost_plugin.Args.Addr.{Options}
use gost_plugin.Args.Apply.{apply_options}
use gost_plugin.Args.Env.{Env}
use gost_plugin.Args.Result.{ArgError}
use gost_plugin.Common.{Option, [], codes, false, if◌then◌else◌, ltb, ℕ}

-- The options before any flag is given.
abbrev pub flag_defaults : Options
flag_defaults = record {
  local_addr = codes "127.0.0.1";
  local_port = 1984;
  remote_addr = codes "127.0.0.1";
  remote_port = 1080;
  hostname = [];
  mode = codes "ws";
  path = codes "/";
  server_name = [];
  server = false;
  nocomp = false;
  insecure = false;
  cert = [];
  key = [];
  mux = 1;
  log_level = 3;
  vpn = false;
  fast_open = false;
  ed = 0;
  service_name = codes "GunService";
  fingerprint = [];
}

-- The level given to `log.SetLevel`, and what `ApplyOptions` leaves: the options of the process, or an
-- error, at which it exits.
pub record Started : Type 0 where
  pub level : ℕ
  pub options : Options
  pub error : Option ArgError

-- `if options.LogLevel > 6 { options.LogLevel = 6 }`
abbrev pub clamped : Options → Options
clamped o = if ltb 6 o.log_level then record o { log_level = 6 } else o

-- `main` on the options that the flags give.
unfoldable pub start : Env → Options → Started
unfolding apply_options
start env o =
    let applied = apply_options env (clamped o) in
    record { level = (clamped o).log_level; options = applied.0; error = applied.1 }
