-- ===== src/Proxy/Accept.antt =====
-- `KeepAccepting`, `KeepMuxAccepting` and `ServeMux` of gost/proxy/tcp.go. The listener and the smux
-- session are foreign code: what their calls return is the input of the loops.
pub mod Laws
pub mod Sessions
use gost_plugin.Common.{
  Bool, Bytes, List, Option, [], false, if◌then◌else◌, none, not, some, true, ◌&&◌, ◌++◌, ◌||◌, ◌∷◌,
}
use gost_plugin.Proxy.Errors.{is_closed, is_eof}
use gost_plugin.Proxy.Queue.{Queue, accept_conn, empty, offer}

-- What `listener.Accept()` returns. A failure has its text, and whether the context is done by the
-- time that the loop asks.
pub data Accepted {ℓ} (C : Type ℓ) : Type ℓ where
  conn : C → Accepted C
  failed : Bytes → Bool → Accepted C

-- What happens to the loop: a call of `Accept` returns, or another goroutine receives from the channel.
pub data Event {ℓ} (C : Type ℓ) : Type ℓ where
  accepts : Accepted C → Event C
  takes : Event C

pub record Loop {ℓ} (C : Type ℓ) : Type ℓ where
  pub queue : Queue C
  pub running : Bool

-- `if errors.IsClosed(err) { break }`, and the `select` on the context.
abbrev pub stops : Bytes → Bool → Bool
stops err done = is_closed err || done

module _ {ℓ} {C : Type ℓ} where
  abbrev pub started : Loop C
  started = record { queue = empty; running = true }

  -- One round of `KeepAccepting`.
  unfoldable pub round : Loop C → Accepted C → Loop C
  round l (conn c) = record l { queue = offer l.queue c }
  round l (failed err done) = if stops err done then record l { running = false } else l

  unfoldable pub step : Loop C → Event C → Loop C
  unfolding round
  step l (accepts a) = if l.running then round l a else l
  step l takes = record l { queue = accept_conn l.queue }

  unfoldable pub keep_accepting : Loop C → List (Event C) → Loop C
  unfolding step
  keep_accepting l [] = l
  keep_accepting l (e ∷ es) = keep_accepting (step l e) es

-- `KeepMuxAccepting`: the connections for which `ServeMux` was started, and whether it still runs.
pub record MuxLoop {ℓ} (C : Type ℓ) : Type ℓ where
  pub served : List C
  pub running : Bool

module _ {ℓ} {C : Type ℓ} where
  unfoldable pub keep_mux_accepting : MuxLoop C → List (Accepted C) → MuxLoop C
  keep_mux_accepting l [] = l
  keep_mux_accepting l (conn c ∷ es) =
      keep_mux_accepting (record l { served = l.served ++ c ∷ [] }) es
  keep_mux_accepting l (failed err done ∷ es) =
      let rest = keep_mux_accepting l es in
      if stops err done then record l { running = false } else rest

-- What `session.AcceptStream()` returns, or a receiver on the channel.
pub data StreamEvent {ℓ} (C : Type ℓ) : Type ℓ where
  stream : C → StreamEvent C
  broken : Bytes → StreamEvent C
  takes_stream : StreamEvent C

-- `ServeMux` after its events: the channel, whether it still runs, whether it closed its session,
-- and the errors that it logged.
pub record Serving {ℓ} (C : Type ℓ) : Type ℓ where
  pub queue : Queue C
  pub running : Bool
  pub session_closed : Bool
  pub logged : List Bytes

-- `if !errors.IsEOF(err) && !errors.IsClosed(err) { log.Errorf(…) }`
abbrev pub log_error : List Bytes → Bytes → List Bytes
log_error logged err =
    if not (is_eof err) && not (is_closed err) then logged ++ err ∷ [] else logged

module _ {ℓ} {C : Type ℓ} where
  unfoldable pub serve_streams : Serving C → List (StreamEvent C) → Serving C
  serve_streams s [] = s
  serve_streams s (stream c ∷ es) =
      serve_streams (if s.running then record s { queue = offer s.queue c } else s) es
  serve_streams s (broken err ∷ es) =
      serve_streams
        (if s.running
          then record s { running = false; session_closed = true; logged = log_error s.logged err }
          else s)
        es
  serve_streams s (takes_stream ∷ es) = serve_streams (record s { queue = accept_conn s.queue }) es

  -- `smux.Server` fails with an error, or gives a session. Its failure leaves nothing to close.
  unfoldable pub serve_mux : Option Bytes → Queue C → List (StreamEvent C) → Serving C
  unfolding serve_streams
  serve_mux (some err) q es =
      serve_streams
        (record { queue = q; running = false; session_closed = false; logged = log_error [] err })
        es
  serve_mux none q es =
      serve_streams (record { queue = q; running = true; session_closed = false; logged = [] }) es
