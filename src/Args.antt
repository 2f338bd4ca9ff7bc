-- ===== src/Args.antt =====
-- Package args: args/args.go, one module for each group of its functions.
pub mod Result
pub mod Map
pub mod Unescape
pub mod Plugin
pub mod Escape
pub mod Number
pub mod Addr
pub mod Env
pub mod Apply
