-- ===== src/Modes/Live.antt =====
-- The listener of a mode over its life: the dials of a client with the same mode, and the calls of
-- `AcceptConn` by its own handler, in any order.
use gost_plugin.Client.Transporters.{Transporter}
use gost_plugin.Common.{
  Bytes, List, Option, [], ap, length, refl, subst, sym, ℕ, ◌++◌, ◌∙◌, ◌∷◌, ◌≡◌, ◌≤◌,
}
use gost_plugin.Modes.Arrive.{EarlyData, Reaches, arrival_of, starts_with, text_of}
use gost_plugin.Proxy.Queue.{accept_conn, capacity, empty, offer}
use gost_plugin.Proxy.Queue.Laws.{Interleaves, Op, offered, offers, run, run-empty, sent, takes}
use gost_plugin.Server.Listeners.{Serving}
use gost_plugin.Server.Serve.{Channel, serve}
use gost_plugin.Web.{Web}

-- A dial, with its early data, the connection below and its own, or a call of `AcceptConn`.
pub data Happening : Type 0 where
  client_dials : Option EarlyData → ℕ → ℕ → Happening
  handler_accepts : Happening

unfoldable pub listener_life : Web → Serving → Transporter → Channel ℕ → List Happening → Channel ℕ
unfolding serve arrival_of accept_conn
listener_life web s t q [] = q
listener_life web s t q (client_dials ed below n ∷ es) =
    listener_life web s t (serve web s q (arrival_of web t (text_of ed) below n)) es
listener_life web s t q (handler_accepts ∷ es) = listener_life web s t (accept_conn q) es

-- The connections of the dials, in order.
abbrev pub dialled_conns : Transporter → List Happening → List (ℕ × Bytes)
dialled_conns t [] = []
dialled_conns t (client_dials ed below n ∷ es) =
    (n, starts_with t (text_of ed)) ∷ dialled_conns t es
dialled_conns t (handler_accepts ∷ es) = dialled_conns t es

-- What the channel makes of it.
abbrev ops_of : Transporter → List Happening → List (Op (ℕ × Bytes))
ops_of t [] = []
ops_of t (client_dials ed below n ∷ es) = offers (n, starts_with t (text_of ed)) ∷ ops_of t es
ops_of t (handler_accepts ∷ es) = takes ∷ ops_of t es

offered-ops_of :
    (t : Transporter) (es : List Happening) → offered (ops_of t es) ≡ dialled_conns t es
offered-ops_of t [] = refl
offered-ops_of t (client_dials ed below n ∷ es) =
    ap (λ x. (n, starts_with t (text_of ed)) ∷ x) (offered-ops_of t es)
offered-ops_of t (handler_accepts ∷ es) = offered-ops_of t es

listener_life-run :
    (web : Web) (s : Serving) (t : Transporter) (q : Channel ℕ) (es : List Happening)
    → Reaches web s t
    → listener_life web s t q es ≡ run q (ops_of t es)
unfolding listener_life run
listener_life-run web s t q [] h = refl
listener_life-run web s t q (client_dials ed below n ∷ es) h =
    ap (λ x. listener_life web s t x es) (h q ed below n)
    ∙ listener_life-run web s t (offer q (n, starts_with t (text_of ed))) es h
listener_life-run web s t q (handler_accepts ∷ es) h =
    listener_life-run web s t (accept_conn q) es h

-- Of the connections that were dialled, those that the handler got and those that wait, and those
-- closed for want of room, are each in the order of the dials; none is closed before 1024 were dialled.
abbrev pub Delivers : Web → Serving → Transporter → Type 0
Delivers web s t =
    (es : List Happening)
    → let q = listener_life web s t empty es in
      (length q.waiting ≤ capacity)
      × Interleaves (q.taken ++ q.waiting) q.closed (dialled_conns t es)
      × (length (dialled_conns t es) ≤ capacity → q.closed ≡ [])

pub Reaches-Delivers :
    (web : Web) (s : Serving) (t : Transporter) → Reaches web s t → Delivers web s t
Reaches-Delivers web s t h es =
    let same = listener_life-run web s t empty es h in
    subst
      (λ q.
        (length q.waiting ≤ capacity)
        × Interleaves (q.taken ++ q.waiting) q.closed (dialled_conns t es)
        × (length (dialled_conns t es) ≤ capacity → q.closed ≡ []))
      (sym same)
      (subst
        (λ cs.
          (length (run empty (ops_of t es)).waiting ≤ capacity)
          × Interleaves (sent (run empty (ops_of t es))) (run empty (ops_of t es)).closed cs
          × (length cs ≤ capacity → (run empty (ops_of t es)).closed ≡ []))
        (offered-ops_of t es) (run-empty (ops_of t es)))
