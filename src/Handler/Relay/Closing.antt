-- ===== src/Handler/Relay/Closing.antt =====
-- The ends as connections of gost/protocol/http/conn.go, whose `Close` must not be called twice.
use gost_plugin.Common.{Option, arith, none, refl, some, suc, zero, ℕ, ◌≡◌, ◌≤◌}
use gost_plugin.Handler.Relay.{Phase, Reachable, Relay, copying, dialing, over}
use gost_plugin.Handler.Relay.Laws.{ClosesEnds, Reachable-ClosesEnds}
use gost_plugin.Protocol.Address.{Address}
use gost_plugin.Protocol.Http.{HttpConn, close, new_http_connection}

-- So many calls of a `Close`; `none` if one panics.
unfoldable pub close_times : {A : Type 0} → (A → Option A) → ℕ → A → Option A
close_times close_conn zero c = some c
close_times close_conn (suc n) c = elim (close_conn c) [
  | none ↦ none
  | some d ↦ close_times close_conn n d
]

-- The calls succeed, and each closed the body and the writer once.
abbrev pub Closes : ℕ → HttpConn → Type 0
Closes n c = (d : HttpConn) × (close_times close n c ≡ some d) × (d.closes ≡ n)

pub Closes-once :
    (n : ℕ) (local remote : Option Address) → n ≤ 1 → Closes n (new_http_connection local remote)
unfolding close_times close new_http_connection
Closes-once zero local remote h = (_, refl, refl)
Closes-once (suc zero) local remote h = (_, refl, refl)
Closes-once (suc (suc n)) local remote h = absurd (omega arith)

at_most_once :
    (p : Phase) (r : Relay) → ClosesEnds p r → (r.closed_inbound ≤ 1) × (r.closed_outbound ≤ 1)
at_most_once dialing r h = (omega arith, omega arith)
at_most_once copying r h = (omega arith, omega arith)
at_most_once over r h = (omega arith, omega arith)

-- In every state that the relaying goroutine reaches, new HTTP/2 connections as its ends have taken
-- all its calls of `Close` without the panic of a second one, and have passed each on to the closer.
pub Reachable-Closes :
    (r : Relay) (a b c d : Option Address)
    → Reachable r
    → Closes r.closed_inbound (new_http_connection a b)
      × Closes r.closed_outbound (new_http_connection c d)
Reachable-Closes r a b c d h =
    let (inbound, outbound) = at_most_once r.phase r (Reachable-ClosesEnds r h) in
    (Closes-once r.closed_inbound a b inbound, Closes-once r.closed_outbound c d outbound)
