-- ===== src/Tests.antt =====
-- Tests, and the theorems at concrete inputs.
mod Arguments
mod Composition
mod Connections
mod Tunnels
mod Listeners
mod Net
mod Processes
mod Sessions
