-- ===== src/Protocol/Address.antt =====
-- The `net.Addr` values of gost/protocol.
use gost_plugin.Common.{Bytes, Option, none, some}

-- An address of a peer, by its text, or the address 0.0.0.0:0 that the constructors put in its place.
pub data Address : Type 0 where
  peer : Bytes → Address
  zero_tcp : Address

-- `if addr == nil { addr = &net.TCPAddr{…} }`
abbrev pub or_zero : Option Address → Address
or_zero none = zero_tcp
or_zero (some a) = a
