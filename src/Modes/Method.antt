-- ===== src/Modes/Method.antt =====
-- A stream of the gRPC client at a server: `DialConn` of gost/proxy/client/gun.go against the service
-- that gost/proxy/server/gun.go registers.
use gost_plugin.Args.Addr.{Options}
use gost_plugin.Client.Gun.{StreamDesc, gun_dial_conn, tun_custom_name, tun_method}
use gost_plugin.Client.Gun.Laws.{Among-methods}
use gost_plugin.Common.{
  Bool, Bytes, List, Option, [], ap, equal, equal_iff, equal_other, false, if◌then◌else◌, inl,
  length, none, true, ℕ, ◌∙◌, ◌∷◌, ◌≡◌, ◌≢◌,
}
use gost_plugin.Foreign.{Calls, and_then, done, ok}
use gost_plugin.Protocol.Address.{Address}
use gost_plugin.Protocol.Gun.{new_gun_connection}
use gost_plugin.Proxy.Queue.{offer}
use gost_plugin.Server.Serve.{Channel, call, is_method, serve_grpc}
use gost_plugin.Server.Upgrade.{tun}
use gost_plugin.Web.{Web}

-- The server of a service takes the streams for these methods, in order; each brings the number of
-- those before it as its connection.
abbrev pub serve_calls : Web → Bytes → Channel ℕ → List Bytes → Channel ℕ
serve_calls web name q [] = q
serve_calls web name q (m ∷ ms) =
    serve_grpc web name (serve_calls web name q ms) (call m (length ms))

served_call :
    (web : Web) (name asked : Bytes) (q : Channel ℕ) (n : ℕ)
    → asked ≡ name
    → serve_grpc web name q (call (tun_method asked) n) ≡ offer q (n, [])
unfolding serve_grpc is_method tun equal
served_call web name asked q n e =
    ap (λ (x : Bool). if if x then true else false then offer q (n, []) else q)
      ((equal_iff (tun_method asked) (tun_method name)).1 (ap tun_method e))

unserved_call :
    (web : Web) (name asked : Bytes) (q : Channel ℕ) (n : ℕ)
    → asked ≢ name
    → serve_grpc web name q (call (tun_method asked) n) ≡ q
unfolding serve_grpc is_method tun equal
unserved_call web name asked q n ne =
    ap (λ (x : Bool). if if x then true else false then offer q (n, []) else q)
      (equal_other (tun_method asked) (tun_method name)
        (λ e. ne (Among-methods asked name (inl e))))

-- A dial of the gRPC client, if `NewStream` works, which does not wait for the server: it gives a new
-- connection whatever the names of the services are, and has opened one stream. The server, which takes
-- the streams for the methods of its service, offers the connection of that stream to its channel if
-- both names are the same; if they differ it runs nothing, and the client has its connection all the same.
pub gun_dial_conn-serve_grpc :
    (web : Web) (name : Bytes) (o : Options)
    (new_stream : StreamDesc → Bytes → Calls (List Bytes) (Option Address))
    (remote : Option Address) (opened : List Bytes) (q : Channel ℕ)
    → ((d : StreamDesc) (m : Bytes) (ms : List Bytes) → new_stream d m ms ≡ (m ∷ ms, ok remote))
    → let r = gun_dial_conn new_stream o opened in
      let before = serve_calls web name q opened in
      (r.1 ≡ ok (new_gun_connection remote none))
      × (o.service_name ≡ name → serve_calls web name q r.0 ≡ offer before (length opened, []))
      × (o.service_name ≢ name → serve_calls web name q r.0 ≡ before)
unfolding gun_dial_conn tun_custom_name
gun_dial_conn-serve_grpc web name o new_stream remote opened q works =
    let e = works _ (tun_method o.service_name) opened in
    let dialled = ap (λ r. and_then r (λ from. done (new_gun_connection from none))) e in
    (
      ap (λ r. r.1) dialled,
      (λ same.
          ap (λ r. serve_calls web name q r.0) dialled
          ∙ served_call web name o.service_name _ (length opened) same),
      (λ other.
          ap (λ r. serve_calls web name q r.0) dialled
          ∙ unserved_call web name o.service_name _ (length opened) other),
    )
