-- ===== src/Handler/System/Closing.antt =====
-- The calls of `Close` on one inbound connection, by the whole handler: those of the `select` that finds
-- the channel full, and those deferred by goroutines.
use gost_plugin.Common.{List, Option, [], arith, if◌then◌else◌, ℕ, ◌++◌, ◌+◌, ◌==◌, ◌∷◌, ◌≡◌, ◌≤◌}
use gost_plugin.Handler.Relay.Closing.{Closes, Closes-once}
use gost_plugin.Handler.Relay.Laws.{ClosesEnds}
use gost_plugin.Handler.System.{Reachable, System}
use gost_plugin.Handler.System.Laws.{relayed}
use gost_plugin.Handler.System.Progress.{EndsClosed, Reachable-Accounted}
use gost_plugin.Protocol.Address.{Address}
use gost_plugin.Protocol.Http.{new_http_connection}
use gost_plugin.Proxy.Queue.Laws.{Interleaves, end, left, right}
use gost_plugin.Handler.Relay as Relaying

abbrev pub count : ℕ → List ℕ → ℕ
count c [] = 0
count c (d ∷ ds) = (if d == c then 1 else 0) + count c ds

pub count-append : (c : ℕ) (xs ys : List ℕ) → count c (xs ++ ys) ≡ count c xs + count c ys
count-append c [] ys = omega arith
count-append c (x ∷ xs) ys = omega (arith, count-append c xs ys)

pub count-Interleaves :
    (c : ℕ) {xs ys zs : List ℕ} → Interleaves xs ys zs → count c zs ≡ count c xs + count c ys
count-Interleaves c end = omega arith
count-Interleaves c (left h) = omega (arith, count-Interleaves c h)
count-Interleaves c (right h) = omega (arith, count-Interleaves c h)

-- The deferred calls on a connection.
abbrev pub deferred : ℕ → List (ℕ × Relaying.Relay) → ℕ
deferred c [] = 0
deferred c ((d, r) ∷ rs) = (if d == c then r.closed_inbound else 0) + deferred c rs

abbrev pub closes_of : ℕ → System ℕ → ℕ
closes_of c s = count c s.queue.closed + deferred c s.relays

at_most_one : (p : Relaying.Phase) (r : Relaying.Relay) → ClosesEnds p r → r.closed_inbound ≤ 1
at_most_one Relaying.dialing r h = omega arith
at_most_one Relaying.copying r h = omega arith
at_most_one Relaying.over r h = omega arith

deferred-count :
    (c : ℕ) (rs : List (ℕ × Relaying.Relay)) → EndsClosed rs → deferred c rs ≤ count c (relayed rs)
deferred-count c [] h = omega arith
deferred-count c ((d, r) ∷ rs) (ends, rest) =
    ground (arith, at_most_one r.phase r ends, deferred-count c rs rest)

pub closes_of-count : (s : System ℕ) (c : ℕ) → Reachable s → closes_of c s ≤ count c s.arrived
closes_of-count s c h =
    let (bounded, inter, ends) = Reachable-Accounted s h in
    omega (
      arith,
      count-Interleaves c inter,
      count-append c (relayed s.relays) s.queue.waiting,
      deferred-count c s.relays ends,
    )

-- In every state of the handler, a connection of HTTP/2 that arrived once has taken all the calls of
-- `Close` on it, those for want of room in the channel and those of its goroutine, without the panic
-- of a second one.
pub Reachable-Closes_all :
    (s : System ℕ) (c : ℕ) (local remote : Option Address)
    → Reachable s
    → count c s.arrived ≤ 1
    → Closes (closes_of c s) (new_http_connection local remote)
Reachable-Closes_all s c local remote h once =
    Closes-once (closes_of c s) local remote (omega (arith, closes_of-count s c h))
