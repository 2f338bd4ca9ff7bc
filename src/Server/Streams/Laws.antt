-- ===== src/Server/Streams/Laws.antt =====
-- Which streams reach the channel, and when a session is closed.
use gost_plugin.Common.{
  Bool, List, [], ap, append-nil, append_assoc, false, if◌then◌else◌, not, refl, sym, true, ℕ, ◌++◌,
  ◌||◌, ◌∙◌, ◌∷◌, ◌≡◌,
}
use gost_plugin.Proxy.Accept.{Accepted, MuxLoop, conn, failed}
use gost_plugin.Proxy.Queue.{Queue, offer}
use gost_plugin.Server.Streams.{Streaming, accept_sessions, accept_streams, serving}

module _ {C : Type 0} where
  -- The streams accepted before the first failure under a context that is done.
  abbrev pub before_end : List (Accepted C) → List C
  before_end [] = []
  before_end (conn c ∷ es) = c ∷ before_end es
  before_end (failed err done ∷ es) = if done then [] else before_end es

  abbrev pub ended : List (Accepted C) → Bool
  ended [] = false
  ended (conn c ∷ es) = ended es
  ended (failed err done ∷ es) = done || ended es

  abbrev pub offer_all : Queue C → List C → Queue C
  offer_all q [] = q
  offer_all q (c ∷ cs) = offer_all (offer q c) cs

  stopped_lem :
      (q : Queue C) (n : ℕ) (es : List (Accepted C))
      → let l : Streaming C = record { queue = q; running = false; session_closes = n } in
        accept_streams l es ≡ l
  unfolding accept_streams
  stopped_lem q n [] = refl
  stopped_lem q n (e ∷ es) = stopped_lem q n es

  -- Until a failure finds a context done, `acceptStreams` offers every stream to the channel in
  -- order, whatever other failures come between; at that failure it ends, and closes the session
  -- once.
  pub accept_streams_lem :
      (q : Queue C) (es : List (Accepted C))
      → accept_streams (serving q) es ≡ record {
        queue = offer_all q (before_end es);
        running = not (ended es);
        session_closes = if ended es then 1 else 0;
      }
  unfolding accept_streams
  accept_streams_lem q [] = refl
  accept_streams_lem q (conn c ∷ es) = accept_streams_lem (offer q c) es
  accept_streams_lem q (failed err true ∷ es) = stopped_lem q 1 es
  accept_streams_lem q (failed err false ∷ es) = accept_streams_lem q es

  stopped_sessions :
      (s : List C) (es : List (Accepted C))
      → let l : MuxLoop C = record { served = s; running = false } in accept_sessions l es ≡ l
  unfolding accept_sessions
  stopped_sessions s [] = refl
  stopped_sessions s (e ∷ es) = stopped_sessions s es

  -- `Serve` starts `acceptStreams` for every session that is accepted before the first failure under
  -- a context that is done, and ends at that failure and at no other.
  pub accept_sessions_lem :
      (s : List C) (es : List (Accepted C))
      → accept_sessions (record { served = s; running = true }) es
        ≡ record { served = s ++ before_end es; running = not (ended es) }
  unfolding accept_sessions
  accept_sessions_lem s [] = ap (λ x. record { served = x; running = true }) (sym (append-nil s))
  accept_sessions_lem s (conn c ∷ es) =
      accept_sessions_lem (s ++ c ∷ []) es
      ∙ ap (λ x. record { served = x; running = not (ended es) })
          (append_assoc s (c ∷ []) (before_end es))
  accept_sessions_lem s (failed err true ∷ es) =
      stopped_sessions s es ∙ ap (λ x. record { served = x; running = false }) (sym (append-nil s))
  accept_sessions_lem s (failed err false ∷ es) = accept_sessions_lem s es
