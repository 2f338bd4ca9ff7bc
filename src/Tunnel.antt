-- ===== src/Tunnel.antt =====
-- The two ends of a WebSocket together: what is written to the client's connection of
-- gost/proxy/client/ws.go comes out of the connection that `Upgrade` of gost/proxy/server/ws.go makes
-- of it. Between them stands gorilla/websocket, which delivers the request and each message whole.
pub mod Relayed
pub mod Answered
pub mod OverGun
pub mod OverStreams
pub mod OverWebsocket
use gost_plugin.Args.Addr.{Options}
use gost_plugin.Client.Ws.{Delayed, Wire, early}
use gost_plugin.Common.{
  All, Bytes, List, Option, [], ap, arith, concat, length, none, refl, some, suc, ℕ, ◌++◌, ◌+◌, ◌<◌,
  ◌∙◌, ◌∷◌, ◌≡◌,
}
use gost_plugin.Foreign.{ok}
use gost_plugin.Protocol.Base64.Laws.{IsByte}
use gost_plugin.Protocol.Websocket.Laws.{drain-readable, first_error, payloads, readable}
use gost_plugin.Proxy.Queue.{Queue, offer}
use gost_plugin.Server.Upgrade.Laws.{
  early_payload-decode, header, payload, request_of, upgrade-same,
}
use gost_plugin.Client.Ws.Laws as Delay
use gost_plugin.Protocol.Websocket as Websocket
use gost_plugin.Server.Upgrade as Upgrade

-- What the calls of `ReadMessage` return at the other end of an open connection.
abbrev pub delivered : List Bytes → List Websocket.Message
delivered [] = []
delivered (b ∷ bs) = record { payload = b; error = none } ∷ delivered bs

pub readable-delivered : (size : ℕ) (bs : List Bytes) → readable size (delivered bs) ≡ concat bs
readable-delivered size [] = refl
readable-delivered size (b ∷ bs) = ap (λ x. b ++ x) (readable-delivered size bs)

payloads-delivered : (bs : List Bytes) → payloads (delivered bs) ≡ concat bs
payloads-delivered [] = refl
payloads-delivered (b ∷ bs) = ap (λ x. b ++ x) (payloads-delivered bs)

pub first_error-delivered : (bs : List Bytes) → first_error (delivered bs) ≡ none
first_error-delivered [] = refl
first_error-delivered (b ∷ bs) = first_error-delivered bs

length-delivered : (bs : List Bytes) → length (delivered bs) ≡ length bs
length-delivered [] = refl
length-delivered (b ∷ bs) = ap suc (length-delivered bs)

-- A reader with a buffer of `size` bytes, called often enough, on what follows the early payload.
abbrev pub read_all : ℕ → Bytes → List Bytes → Bytes × Option Bytes
read_all size early bs =
    Websocket.drain (suc (length early + length (concat bs) + length bs)) size early (delivered bs)

pub read_all_lem :
    (size : ℕ) (early : Bytes) (bs : List Bytes)
    → 0 < size
    → read_all size early bs ≡ (early ++ concat bs, none)
read_all_lem size early bs pos =
    drain-readable _ size early (delivered bs) pos
      (omega (arith, ap length (payloads-delivered bs), length-delivered bs))
    ∙ (λ i. (early ++ readable-delivered size bs i, first_error-delivered bs i))

pub early_payload-early_bytes :
    (p : Option Bytes) → (Upgrade.early_payload (header p)).0 ≡ Delay.early_bytes p
unfolding Upgrade.early_payload
early_payload-early_bytes none = refl
early_payload-early_bytes (some s) = ap (λ x. x.0) (early_payload-decode s)

-- The connection that the server makes of a client's wire: what it starts with.
abbrev pub early_of : Wire → Bytes
early_of w = (Upgrade.early_payload (header w.opened_by.protocol)).0

-- A byte pipe: whatever buffers are written to a new connection, the first with early data or
-- without, if nothing fails, the server sends one connection to its channel, and a reader of that
-- connection, whatever its buffer, gets exactly the bytes that were written, in order, and no error.
pub write_all-read_all :
    {N : Type 0} (o : Options) (url path : Bytes) (ed size : ℕ) (b : Bytes) (bs : List Bytes)
    (q : Queue (N × Bytes)) (n : N)
    → All IsByte b
    → 0 < size
    → (d : Delayed) × (w : Wire) × (Delay.write_all (Delay.fresh o url ed) (b ∷ bs) ≡ some d)
      × (d.conn ≡ some w)
      × (Upgrade.upgrade path q (request_of w.opened_by path) (ok n)
          ≡ (offer q (n, early_of w), Upgrade.accepted))
      × (read_all size (early_of w) w.messages ≡ (concat (b ∷ bs), none))
write_all-read_all o url path ed size b bs q n bytes pos =
    let (d, w, e, c, s, p) = Delay.write_all-fresh o url ed b bs bytes in
    let early : early_of w ≡ Delay.early_bytes w.opened_by.protocol =
      early_payload-early_bytes w.opened_by.protocol in
    (
      d,
      w,
      e,
      c,
      upgrade-same path (header w.opened_by.protocol) q (ok n),
      read_all_lem size (early_of w) w.messages pos
          ∙ (λ i. (early i ++ concat w.messages, none))
          ∙ ap (λ x. (x, none)) s,
    )
