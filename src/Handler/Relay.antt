-- ===== src/Handler/Relay.antt =====
-- The goroutine of `Serve` in handler.go for one connection, with the two that copy, as a state
-- machine. Each step is one call of foreign code that returns, or one operation on `errChan`.
pub mod Laws
pub mod Closing
use gost_plugin.Common.{Bytes, List, Option, [], length, suc, ℕ, ◌++◌, ◌+◌, ◌<◌, ◌∷◌, ◌≡◌}

pub data Phase : Type 0 where
  dialing : Phase
  copying : Phase
  over : Phase

-- `dialled` counts the outbound ends that `DialConn` gave, `running` the copies that still run,
-- `err_chan` is what `errChan` holds, and the last two count the calls of `Close` on the ends by this
-- goroutine.
pub record Relay : Type 0 where
  pub phase : Phase
  pub dialled : ℕ
  pub running : ℕ
  pub err_chan : List (Option Bytes)
  pub closed_inbound : ℕ
  pub closed_outbound : ℕ

abbrev pub accepted : Relay
accepted = record {
  phase = dialing;
  dialled = 0;
  running = 0;
  err_chan = [];
  closed_inbound = 0;
  closed_outbound = 0;
}

pub data Step : Relay → Relay → Type 0 where
  -- `DialConn` fails: the deferred `inbound.Close()` runs.
  dial_fails :
      (r : Relay)
      → r.phase ≡ dialing
      → Step r (record r { phase = over; closed_inbound = r.closed_inbound + 1 })
  -- `DialConn` gives a connection: both copies start.
  dial_works :
      (r : Relay)
      → r.phase ≡ dialing
      → Step r (record r { phase = copying; dialled = r.dialled + 1; running = 2 })
  -- `io.Copy` returns, and its result is sent; the channel has room for two.
  copy_ends :
      (r : Relay) (n : ℕ) (result : Option Bytes)
      → r.running ≡ suc n
      → length r.err_chan < 2
      → Step r (record r { running = n; err_chan = r.err_chan ++ result ∷ [] })
  -- `err = <-errChan`, and the deferred calls.
  result_received :
      (r : Relay) (result : Option Bytes) (rest : List (Option Bytes))
      → r.phase ≡ copying
      → r.err_chan ≡ result ∷ rest
      → Step r (record r {
        phase = over;
        err_chan = rest;
        closed_inbound = r.closed_inbound + 1;
        closed_outbound = r.closed_outbound + 1;
      })

pub data Reachable : Relay → Type 0 where
  starts : Reachable accepted
  steps : {r s : Relay} → Reachable r → Step r s → Reachable s
