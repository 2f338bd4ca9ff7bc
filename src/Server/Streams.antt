-- ===== src/Server/Streams.antt =====
-- gost/proxy/server/quic.go: the loops that accept sessions and their streams.
pub mod Laws
use gost_plugin.Common.{Bool, List, [], false, if◌then◌else◌, true, ℕ, ◌++◌, ◌+◌, ◌∷◌}
use gost_plugin.Proxy.Accept.{Accepted, MuxLoop, conn, failed}
use gost_plugin.Proxy.Queue.{Queue, offer}

-- A session's `acceptStreams`: the channel, whether the loop runs, and how often the session was
-- closed. A failure comes with whether the session's or the listener's context is done.
pub record Streaming (C : Type 0) : Type 0 where
  pub queue : Queue C
  pub running : Bool
  pub session_closes : ℕ

module _ {C : Type 0} where
  abbrev pub serving : Queue C → Streaming C
  serving q = record { queue = q; running = true; session_closes = 0 }

  abbrev pub stream_round : Streaming C → Accepted C → Streaming C
  stream_round l (conn c) = record l { queue = offer l.queue c }
  stream_round l (failed err done) =
      if done then record l { running = false; session_closes = l.session_closes + 1 } else l

  unfoldable pub accept_streams : Streaming C → List (Accepted C) → Streaming C
  unfolding offer
  accept_streams l [] = l
  accept_streams l (e ∷ es) = accept_streams (if l.running then stream_round l e else l) es

  abbrev pub session_round : MuxLoop C → Accepted C → MuxLoop C
  session_round l (conn c) = record l { served = l.served ++ c ∷ [] }
  session_round l (failed err done) = if done then record l { running = false } else l

  -- `Serve`: the sessions for which `acceptStreams` was started.
  unfoldable pub accept_sessions : MuxLoop C → List (Accepted C) → MuxLoop C
  accept_sessions l [] = l
  accept_sessions l (e ∷ es) = accept_sessions (if l.running then session_round l e else l) es
