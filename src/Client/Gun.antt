-- ===== src/Client/Gun.antt =====
-- gost/proxy/client/gun.go with gost/protocol/gun/gun.go: the method that a stream of the tunnel calls.
pub mod Laws
use gost_plugin.Args.Addr.{Options}
use gost_plugin.Common.{Bool, Bytes, List, Option, [], codes, none, true, ◌++◌, ◌∷◌}
use gost_plugin.Foreign.{Calls, done, ◌>>=◌}
use gost_plugin.Protocol.Address.{Address}
use gost_plugin.Protocol.Gun.{GunConn, new_gun_connection}

pub record StreamDesc : Type 0 where
  pub stream_name : Bytes
  pub server_streams : Bool
  pub client_streams : Bool

pub record ServiceDesc : Type 0 where
  pub service_name : Bytes
  pub streams : List StreamDesc
  pub metadata : Bytes

-- `ServerDesc`, without the types of the handlers; it has no methods.
abbrev pub server_desc : Bytes → ServiceDesc
server_desc name = record {
  service_name = name;
  streams = record { stream_name = codes "Tun"; server_streams = true; client_streams = true } ∷ [];
  metadata = codes "gost/protocol/gun/gun.proto";
}

-- The method that `TunCustomName` opens its stream for.
abbrev pub tun_method : Bytes → Bytes
tun_method name = codes "/" ++ (name ++ codes "/Tun")

-- `new_stream` is `NewStream` of the client's connection: the peer of the stream, if it is known.
unfoldable pub tun_custom_name :
    {W : Type 0}
    → (StreamDesc → Bytes → Calls W (Option Address))
    → Bytes
    → Calls W (Option Address)
tun_custom_name new_stream name =
    new_stream (record { stream_name = codes "Tun"; server_streams = true; client_streams = true })
      (tun_method name)

unfoldable pub gun_dial_conn :
    {W : Type 0} → (StreamDesc → Bytes → Calls W (Option Address)) → Options → Calls W GunConn
unfolding tun_custom_name new_gun_connection
gun_dial_conn new_stream o = do
  remote ← tun_custom_name new_stream o.service_name
  done (new_gun_connection remote none)
