-- ===== src/Client/H2/Laws.antt =====
-- The client of HTTP/2 against the server of gost/proxy/server/h2.go.
use gost_plugin.Args.Addr.{Options}
use gost_plugin.Args.Number.{format_uint, print_digits}
use gost_plugin.Client.H2.{HttpRequest, answered, h2_conn, h2_dial_conn, h2_request, h2_response}
use gost_plugin.Common.{
  Bool, Bool-cases, Bytes, Option, [], ap, codes, equal, equal_other, equal_refl, if◌then◌else◌,
  inl, inr, none, refl, some, suc, true, ℕ, ◌∙◌, ◌≡◌,
}
use gost_plugin.Foreign.{Outcome, and_then, failed, ok}
use gost_plugin.Proxy.Queue.{Queue, offer}
use gost_plugin.Server.Upgrade.{
  Response, accepted, bad_payload, not_found, not_upgraded, serve_http,
}
use gost_plugin.Web.{Documented, Web, is_plain}

-- `w.WriteHeader` of `serveHTTP`, whose responses are `accepted` and `not_found`.
abbrev pub h2_status : Response → ℕ
h2_status accepted = 200
h2_status not_found = 404
h2_status not_upgraded = 404
h2_status bad_payload = 404

-- The `ServeMux` of the server with a request for a path: its handler `serveHTTP`, at the path of the
-- options, or a status of its own.
abbrev pub muxed : {N : Type 0} → Web → Bytes → Queue N → N → Bytes → Queue N × ℕ
muxed web path q n asked =
    let r = serve_http path q (record { path = asked; protocol = [] }) n in
    if web.routed path asked then (r.0, h2_status r.1) else (q, web.own_status path asked)

-- A request that is not sent fails.
abbrev pub exchanged :
    {N : Type 0} → Web → Bytes → Queue N → N → Bytes → Option Bytes → Queue N × Outcome ℕ
exchanged web path q n unsent none = (q, failed unsent)
exchanged web path q n unsent (some asked) = let r = muxed web path q n asked in (r.0, ok r.1)

-- What becomes of a request: the channel of the server behind it, and what `client.Do` returns.
abbrev pub exchange :
    {N : Type 0} → Web → Bytes → Queue N → N → Bytes → HttpRequest → Queue N × Outcome ℕ
exchange web path q n unsent r = exchanged web path q n unsent (web.sent_path r.path)

abbrev served : {N : Type 0} → Queue N → N → Bool → Queue N × Response
served q n b = if b then (offer q n, accepted) else (q, not_found)

not_found_lem :
    (bodies : ℕ) → h2_response 404 bodies ≡ (bodies, failed (codes "unexpected status 404"))
unfolding h2_response format_uint print_digits
not_found_lem bodies = refl

-- Behind `ServeMux`, for a handler that is run, and for another path.
muxed-same :
    {N : Type 0} (web : Web) (path : Bytes) (q : Queue N) (n : N)
    → Documented web
    → is_plain path ≡ true
    → muxed web path q n path ≡ (offer q n, 200)
unfolding serve_http
muxed-same web path q n documented is_clear =
    ap
      (λ b.
        if b
        then ((served q n (equal path path)).0, h2_status (served q n (equal path path)).1)
        else (q, web.own_status path path))
      (documented.routed-plain path is_clear)
    ∙ ap (λ b. ((served q n b).0, h2_status (served q n b).1)) (equal_refl path)

muxed-other :
    {N : Type 0} (web : Web) (path asked : Bytes) (q : Queue N) (n : N)
    → Documented web
    → is_plain path ≡ true
    → is_plain asked ≡ true
    → ¬ (asked ≡ path)
    → muxed web path q n asked ≡ (q, 404)
unfolding serve_http
muxed-other web path asked q n documented is_clear asked_clear other =
    ap
      (λ b.
        if web.routed path asked
        then ((served q n b).0, h2_status (served q n b).1)
        else (q, web.own_status path asked))
      (equal_other asked path other)
    ∙ elim (Bool-cases (web.routed path asked)) [
      | inl e ↦ ap (λ b. if b then (q, 404) else (q, web.own_status path asked)) e
      | inr e ↦
          ap (λ b. if b then (q, 404) else (q, web.own_status path asked)) e
          ∙ ap (λ k. (q, k)) (documented.own_status-plain path asked is_clear asked_clear e)
    ]

exchange-muxed :
    {N : Type 0} (web : Web) (path : Bytes) (q : Queue N) (n : N) (unsent : Bytes) (o : Options)
    → Documented web
    → is_plain o.path ≡ true
    → exchange web path q n unsent (h2_request o)
      ≡ (let r = muxed web path q n o.path in (r.0, ok r.1))
unfolding h2_request
exchange-muxed web path q n unsent o documented is_clear =
    ap (λ r. exchanged web path q n unsent r) (documented.sent_path-plain o.path is_clear)

-- A dial to a server, for plain paths, with net/http as documented: if the paths are the same, the
-- server sends the connection to its channel and the client has one; if not, the server drops it, and
-- the client gets the error of the status 404. Either way the body of the response is open, which after
-- the error nothing closes.
pub h2_dial_conn-serve_http :
    {N : Type 0} (web : Web) (path : Bytes) (q : Queue N) (n : N) (unsent : Bytes) (o : Options)
    (bodies : ℕ)
    → Documented web
    → is_plain path ≡ true
    → is_plain o.path ≡ true
    → ((o.path ≡ path)
        → (h2_dial_conn (λ r. (exchange web path q n unsent r).1) o bodies
            ≡ (suc bodies, ok h2_conn))
          × ((exchange web path q n unsent (h2_request o)).0 ≡ offer q n))
      × (¬ (o.path ≡ path)
          → (h2_dial_conn (λ r. (exchange web path q n unsent r).1) o bodies
              ≡ (suc bodies, failed (codes "unexpected status 404")))
            × ((exchange web path q n unsent (h2_request o)).0 ≡ q))
unfolding h2_dial_conn
h2_dial_conn-serve_http web path q n unsent o bodies documented is_clear asked_clear =
    let sent = exchange-muxed web path q n unsent o documented asked_clear in
    let answer = λ (r : Outcome ℕ). and_then (answered r bodies) h2_response in
    (
      (λ same.
          let e =
            sent
            ∙ ap (λ x. (let r = muxed web path q n x in (r.0, ok r.1))) same
            ∙ ap (λ r. (r.0, ok r.1)) (muxed-same web path q n documented is_clear) in
          (ap (λ r. answer r.1) e, ap (λ r. r.0) e)),
      (λ other.
          let e =
            sent
            ∙ ap (λ r. (r.0, ok r.1))
                (muxed-other web path o.path q n documented is_clear asked_clear other) in
          (ap (λ r. answer r.1) e ∙ not_found_lem (suc bodies), ap (λ r. r.0) e)),
    )
