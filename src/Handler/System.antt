-- ===== src/Handler/System.antt =====
-- `Serve` of handler.go whole: the channel of the listener, the loop that accepts from it, and one
-- goroutine for each connection it accepted.
pub mod Laws
pub mod Progress
pub mod Settling
pub mod Closing
pub mod Returning
use gost_plugin.Common.{Bool, List, [], not, true, ◌++◌, ◌∷◌, ◌≡◌}
use gost_plugin.Proxy.Queue.{Queue, accept_conn, empty, offer}
use gost_plugin.Handler.Relay as Relaying

-- `arrived` is what the listener has accepted from the network, in order, and `relays` the goroutines
-- in the order of their start, each with its inbound connection. `accepting` says that the loop has
-- not returned.
pub record System (C : Type 0) : Type 0 where
  pub arrived : List C
  pub queue : Queue C
  pub accepting : Bool
  pub relays : List (C × Relaying.Relay)

abbrev pub started : {C : Type 0} → System C
started = record { arrived = []; queue = empty; accepting = true; relays = [] }

module _ {C : Type 0} where
  -- One goroutine in its place makes a step.
  pub data Relays : List (C × Relaying.Relay) → List (C × Relaying.Relay) → Type 0 where
    here :
        {c : C} {r s : Relaying.Relay} {rest : List (C × Relaying.Relay)}
        → Relaying.Step r s
        → Relays ((c, r) ∷ rest) ((c, s) ∷ rest)
    later :
        {x : C × Relaying.Relay} {xs ys : List (C × Relaying.Relay)}
        → Relays xs ys
        → Relays (x ∷ xs) (x ∷ ys)

  -- What the goroutines of the handler do by themselves.
  pub data Move : System C → System C → Type 0 where
    -- `conn, err := h.listener.AcceptConn()` returns a connection: a goroutine starts for it.
    accepts :
        (s : System C) (c : C) (cs : List C)
        → s.accepting ≡ true
        → s.queue.waiting ≡ c ∷ cs
        → Move s (record s {
          queue = accept_conn s.queue;
          relays = s.relays ++ (c, Relaying.accepted) ∷ [];
        })
    relays_on :
        (s : System C) (rs : List (C × Relaying.Relay))
        → Relays s.relays rs
        → Move s (record s { relays = rs })

  pub data Step : System C → System C → Type 0 where
    moves : {s s' : System C} → Move s s' → Step s s'
    -- The goroutine of `h.listener.Serve` sends a connection to the channel, or closes it.
    arrives :
        (s : System C) (c : C)
        → Step s (record s { arrived = s.arrived ++ c ∷ []; queue = offer s.queue c })
    -- `AcceptConn` returns an error; the loop returns if the context is done.
    accept_fails :
        (s : System C) (ctx_done : Bool)
        → s.accepting ≡ true
        → Step s (record s { accepting = not ctx_done })

  pub data Reachable : System C → Type 0 where
    starts : Reachable started
    steps : {s s' : System C} → Reachable s → Step s s' → Reachable s'
