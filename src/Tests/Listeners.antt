-- ===== src/Tests/Listeners.antt =====
-- The accept loops, the handlers, the registry and the relay at concrete inputs.
use gost_plugin.Common.{
  List, [], codes, false, if◌then◌else◌, length, none, not, true, ℕ, ◌&&◌, ◌↔◌, ◌∷◌, ◌≡◌, ◌≤◌,
}
use gost_plugin.Proxy.Queue.{capacity, empty}
use gost_plugin.Proxy.Queue.Laws.{Interleaves, offered, run, sent}
use gost_plugin.Server.Streams.{accept_streams, serving}
use gost_plugin.Server.Streams.Laws.{accept_streams_lem, offer_all}
use gost_plugin.Proxy.Accept as Accept
use gost_plugin.Proxy.Accept.Laws as AcceptLaws

abbrev some_events : List (Accept.Event ℕ)
some_events =
    Accept.accepts (Accept.conn 1)
    ∷ Accept.accepts (Accept.failed (codes "too many open files") false)
    ∷ Accept.takes
    ∷ Accept.accepts (Accept.failed (codes "use of closed network connection") false)
    ∷ []

keep_accepting_lem_example :
    let l = Accept.keep_accepting Accept.started some_events in
    (length l.queue.waiting ≤ capacity)
    × Interleaves (sent l.queue) l.queue.closed (offered (AcceptLaws.ops true some_events))
    × ((l.running ≡ false) ↔ AcceptLaws.AnyEnds some_events)
keep_accepting_lem_example = AcceptLaws.keep_accepting_lem some_events

abbrev some_streams : List (Accept.StreamEvent ℕ)
some_streams =
    Accept.stream 1 ∷ Accept.takes_stream ∷ Accept.broken (codes "EOF") ∷ Accept.stream 2 ∷ []

serve_mux_lem_example :
    let s = Accept.serve_mux none empty some_streams in
    let error = (if AcceptLaws.has_error none then none else AcceptLaws.first_error some_streams) in
    (s.queue ≡ run empty (AcceptLaws.stream_ops (not (AcceptLaws.has_error none)) some_streams))
    × (s.running ≡ not (AcceptLaws.has_error error))
    × (s.session_closed ≡ (not (AcceptLaws.has_error none) && AcceptLaws.has_error error))
    × (s.logged ≡ AcceptLaws.reported error)
serve_mux_lem_example = AcceptLaws.serve_mux_lem none empty some_streams

abbrev some_accepts : List (Accept.Accepted ℕ)
some_accepts =
    Accept.conn 1
    ∷ Accept.failed (codes "timeout") false
    ∷ Accept.conn 2
    ∷ Accept.failed (codes "closed") true
    ∷ []

accept_streams_lem_example :
    accept_streams (serving empty) some_accepts
    ≡ record { queue = offer_all empty (1 ∷ 2 ∷ []); running = false; session_closes = 1 }
accept_streams_lem_example = accept_streams_lem empty some_accepts
