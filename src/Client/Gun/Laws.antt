-- ===== src/Client/Gun/Laws.antt =====
-- The method that the client of gRPC calls, and the service of the server.
use gost_plugin.Client.Gun.{ServiceDesc, StreamDesc, server_desc, tun_method}
use gost_plugin.Common.{
  Bytes, List, [], ap, append_cancel_right, codes, drop, inl, inr, ◌++◌, ◌↔◌, ◌∷◌, ◌≡◌, ◌⊎◌,
}

-- The methods by which gRPC knows the streams of a service: "/", its name, "/", that of the stream.
abbrev pub stream_methods : Bytes → List StreamDesc → List Bytes
stream_methods name [] = []
stream_methods name (s ∷ ss) =
    (codes "/" ++ (name ++ (codes "/" ++ s.stream_name))) ∷ stream_methods name ss

abbrev pub methods : ServiceDesc → List Bytes
methods d = stream_methods d.service_name d.streams

-- Behind the first byte of the first text.
abbrev rest : List Bytes → Bytes
rest [] = []
rest (s ∷ ss) = drop 1 s

-- The client calls the one method of the server's service exactly if both have the same name of the
-- service, whatever bytes it has.
pub tun_method-server_desc : (p o : Bytes) → (tun_method p ∷ [] ≡ methods (server_desc o)) ↔ (p ≡ o)
tun_method-server_desc p o =
    (λ h. append_cancel_right p o (codes "/Tun") (ap rest h), λ h. ap (λ s. tun_method s ∷ []) h)

abbrev pub Among : Bytes → List Bytes → Type 0
Among m [] = ⊥
Among m (n ∷ ns) = (m ≡ n) ⊎ Among m ns

pub Among-methods : (p o : Bytes) → Among (tun_method p) (methods (server_desc o)) → p ≡ o
Among-methods p o (inl e) = (tun_method-server_desc p o).0 (ap (λ s. s ∷ []) e)
Among-methods p o (inr h) = absurd h
