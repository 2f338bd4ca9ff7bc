-- ===== src/Proxy/Accept/Laws.antt =====
-- The accept loops against what they should do with each event.
use gost_plugin.Common.{
  Bool, Bool-cases, Bytes, List, Option, [], ap, arith, false, if◌then◌else◌, inl, inr, length,
  none, not, refl, some, subst, sym, true, ◌&&◌, ◌||◌, ◌↔◌, ◌∙◌, ◌∷◌, ◌≡◌, ◌≤◌, ◌⊎◌,
}
use gost_plugin.Proxy.Accept.{
  Event, Loop, Serving, StreamEvent, accepts, broken, conn, failed, keep_accepting, log_error,
  serve_mux, serve_streams, started, step, stream, takes, takes_stream,
}
use gost_plugin.Proxy.Errors.{is_closed, is_eof}
use gost_plugin.Proxy.Queue.{Queue, accept_conn, capacity, empty, offer}
use gost_plugin.Proxy.Queue.Laws.{Interleaves, Op, offered, offers, run, run-empty, sent}
use gost_plugin.Proxy.Queue.Laws as Channel

abbrev pub Breaks : Bytes → Bool → Type 0
Breaks err done = (is_closed err ≡ true) ⊎ (done ≡ true)

-- The same as a test.
abbrev pub is_last : Bytes → Bool → Bool
is_last err done = if done then true else is_closed err

-- Whether an error ends the loop.
is_last-Ends :
    (err : Bytes) (done : Bool)
    → (Breaks err done × (is_last err done ≡ true))
      ⊎ ((¬ Breaks err done) × (is_last err done ≡ false))
is_last-Ends err true = inl (inr refl, refl)
is_last-Ends err false = elim (Bool-cases (is_closed err)) [
  | inl e ↦ inl (inl e, e)
  | inr e ↦ inr ((λ h. elim h [ inl x ↦ absurd (cc) | inr x ↦ absurd (cc) ]), e)
]

module _ {ℓ} {C : Type ℓ} where
  -- The error that ends the loop: one that says "closed", or any once the context is done.
  abbrev pub Ends : Event C → Type 0
  Ends (accepts (failed err done)) = Breaks err done
  Ends (accepts (conn c)) = ⊥
  Ends takes = ⊥

  abbrev pub AnyEnds : List (Event C) → Type 0
  AnyEnds [] = ⊥
  AnyEnds (e ∷ es) = Ends e ⊎ AnyEnds es

  -- The operations on the channel: receivers always, and senders up to the error that ends the loop.
  abbrev pub ops : Bool → List (Event C) → List (Op C)
  ops running [] = []
  ops running (takes ∷ es) = Op.takes ∷ ops running es
  ops true (accepts (conn c) ∷ es) = offers c ∷ ops true es
  ops true (accepts (failed err done) ∷ es) = ops (not (is_last err done)) es
  ops false (accepts a ∷ es) = ops false es

  abbrev loop : Queue C → Bool → Loop C
  loop q running = record { queue = q; running = running }

  step_failed :
      (q : Queue C) (err : Bytes) (done : Bool)
      → step (loop q true) (accepts (failed err done)) ≡ loop q (not (is_last err done))
  unfolding step
  step_failed q err done = ground arith

  keep_accepting-ops :
      (q : Queue C) (running : Bool) (es : List (Event C))
      → (keep_accepting (loop q running) es).queue ≡ Channel.run q (ops running es)
  unfolding keep_accepting Channel.run
  keep_accepting-ops q running [] = refl
  keep_accepting-ops q running (takes ∷ es) = keep_accepting-ops (accept_conn q) running es
  keep_accepting-ops q true (accepts (conn c) ∷ es) = keep_accepting-ops (offer q c) true es
  keep_accepting-ops q true (accepts (failed err done) ∷ es) =
      ap (λ l. (keep_accepting l es).queue) (step_failed q err done)
      ∙ keep_accepting-ops q (not (is_last err done)) es
  keep_accepting-ops q false (accepts a ∷ es) = keep_accepting-ops q false es

  keep_accepting-stopped :
      (q : Queue C) (es : List (Event C)) → (keep_accepting (loop q false) es).running ≡ false
  unfolding keep_accepting
  keep_accepting-stopped q [] = refl
  keep_accepting-stopped q (takes ∷ es) = keep_accepting-stopped (accept_conn q) es
  keep_accepting-stopped q (accepts a ∷ es) = keep_accepting-stopped q es

  no_end : {P : Type 0} (es : List (Event C)) → (AnyEnds es → P) → ⊥ ⊎ AnyEnds es → P
  no_end es g (inl x) = absurd x
  no_end es g (inr x) = g x

  ends_later : {E P : Type 0} (es : List (Event C)) → ¬ E → (AnyEnds es → P) → E ⊎ AnyEnds es → P
  ends_later es never g (inl x) = absurd (never x)
  ends_later es never g (inr x) = g x

  -- The loop ends exactly when an error ends it.
  keep_accepting-running :
      (q : Queue C) (es : List (Event C))
      → ((keep_accepting (loop q true) es).running ≡ false) ↔ AnyEnds es
  unfolding keep_accepting
  keep_accepting-running q [] = ((λ e. absurd (cc)), λ e. absurd e)
  keep_accepting-running q (takes ∷ es) =
      let (f, g) = keep_accepting-running (accept_conn q) es in ((λ e. inr (f e)), no_end es g)
  keep_accepting-running q (accepts (conn c) ∷ es) =
      let (f, g) = keep_accepting-running (offer q c) es in ((λ e. inr (f e)), no_end es g)
  keep_accepting-running q (accepts (failed err done) ∷ es) =
      subst (λ l. ((keep_accepting l es).running ≡ false) ↔ (Breaks err done ⊎ AnyEnds es))
        (sym (step_failed q err done)) (after (keep_accepting-running q es) (is_last-Ends err done))
    where
      after :
          (((keep_accepting (loop q true) es).running ≡ false) ↔ AnyEnds es)
          → (Breaks err done × (is_last err done ≡ true))
            ⊎ ((¬ Breaks err done) × (is_last err done ≡ false))
          → ((keep_accepting (loop q (not (is_last err done))) es).running ≡ false)
            ↔ (Breaks err done ⊎ AnyEnds es)
      after ih (inl (ends, e)) = ((λ _. inl ends), λ _. rw e (keep_accepting-stopped q es))
      after (f, g) (inr (goes, e)) = rw e ((λ x. inr (f x)), ends_later es goes g)

  -- The channel sees the operations up to the error that ends the loop, so it is bounded and loses
  -- nothing; and the loop has ended exactly when there was such an error.
  pub keep_accepting_lem :
      (es : List (Event C))
      → let l = keep_accepting started es in
        (length l.queue.waiting ≤ capacity)
        × Interleaves (Channel.sent l.queue) l.queue.closed (Channel.offered (ops true es))
        × ((l.running ≡ false) ↔ AnyEnds es)
  keep_accepting_lem es =
      let (fits, inter, open_still) = Channel.run-empty (ops true es) in
      rw (keep_accepting-ops empty true es) (fits, inter, keep_accepting-running empty es)

-- What is logged of an error that ends the session.
abbrev pub reported : Option Bytes → List Bytes
reported none = []
reported (some err) = if is_eof err || is_closed err then [] else err ∷ []

abbrev pub has_error : Option Bytes → Bool
has_error none = false
has_error (some err) = true

log_error-reported : (err : Bytes) → log_error [] err ≡ reported (some err)
log_error-reported err = ground arith

module _ {ℓ} {C : Type ℓ} where
  -- The first error of `AcceptStream`, and what the channel sees before and after it.
  abbrev pub first_error : List (StreamEvent C) → Option Bytes
  first_error [] = none
  first_error (broken err ∷ es) = some err
  first_error (stream c ∷ es) = first_error es
  first_error (takes_stream ∷ es) = first_error es

  abbrev pub stream_ops : Bool → List (StreamEvent C) → List (Op C)
  stream_ops running [] = []
  stream_ops running (takes_stream ∷ es) = Op.takes ∷ stream_ops running es
  stream_ops true (stream c ∷ es) = offers c ∷ stream_ops true es
  stream_ops true (broken err ∷ es) = stream_ops false es
  stream_ops false (stream c ∷ es) = stream_ops false es
  stream_ops false (broken err ∷ es) = stream_ops false es

  abbrev serving : Queue C → Bool → Bool → List Bytes → Serving C
  serving q running session_closed logged = record {
    queue = q;
    running = running;
    session_closed = session_closed;
    logged = logged;
  }

  serve_streams-ended :
      (q : Queue C) (c : Bool) (logged : List Bytes) (es : List (StreamEvent C))
      → serve_streams (serving q false c logged) es
        ≡ serving (Channel.run q (stream_ops false es)) false c logged
  unfolding serve_streams Channel.run
  serve_streams-ended q c logged [] = refl
  serve_streams-ended q c logged (stream x ∷ es) = serve_streams-ended q c logged es
  serve_streams-ended q c logged (broken err ∷ es) = serve_streams-ended q c logged es
  serve_streams-ended q c logged (takes_stream ∷ es) =
      serve_streams-ended (accept_conn q) c logged es

  serve_streams_lem :
      (q : Queue C) (es : List (StreamEvent C))
      → serve_streams (serving q true false []) es
        ≡ serving
            (Channel.run q (stream_ops true es))
            (not (has_error (first_error es)))
            (has_error (first_error es))
            (reported (first_error es))
  unfolding serve_streams Channel.run
  serve_streams_lem q [] = refl
  serve_streams_lem q (stream x ∷ es) = serve_streams_lem (offer q x) es
  serve_streams_lem q (takes_stream ∷ es) = serve_streams_lem (accept_conn q) es
  serve_streams_lem q (broken err ∷ es) =
      serve_streams-ended q true (log_error [] err) es
      ∙ ap (serving (Channel.run q (stream_ops false es)) false true) (log_error-reported err)

  -- A session that was set up is served until its first error; it is closed exactly then, the error
  -- is logged unless it says "EOF" or "closed", and the channel sees the streams before it and no
  -- others. If the set-up fails, no stream is sent, and no session is left to close.
  pub serve_mux_lem :
      (setup : Option Bytes) (q : Queue C) (es : List (StreamEvent C))
      → let s = serve_mux setup q es in
        let error = (if has_error setup then setup else first_error es) in
        (s.queue ≡ Channel.run q (stream_ops (not (has_error setup)) es))
        × (s.running ≡ not (has_error error))
        × (s.session_closed ≡ (not (has_error setup) && has_error error))
        × (s.logged ≡ reported error)
  unfolding serve_mux
  serve_mux_lem none q es =
      let e = serve_streams_lem q es in
      (
        ap (λ s. s.queue) e,
        ap (λ s. s.running) e,
        ap (λ s. s.session_closed) e,
        ap (λ s. s.logged) e,
      )
  serve_mux_lem (some err) q es =
      let e = serve_streams-ended q false (log_error [] err) es in
      (
        ap (λ s. s.queue) e,
        ap (λ s. s.running) e,
        ap (λ s. s.session_closed) e,
        ap (λ s. s.logged) e ∙ log_error-reported err,
      )
