-- ===== src/Main/Run/Laws.antt =====
-- A process that serves, and two that serve each other.
use gost_plugin.Args.Addr.{Options}
use gost_plugin.Args.Env.{Env}
use gost_plugin.Args.Result.{ArgError}
use gost_plugin.Common.{Bool, Bytes, Option, false, none, refl, some, sym, true, ℕ, ◌∙◌, ◌≡◌, ◌≤◌}
use gost_plugin.Foreign.{Outcome, failed}
use gost_plugin.Handler.Ends.{Built, Makers, new_handler, new_handler-Built}
use gost_plugin.Main.{start}
use gost_plugin.Main.Level.{start-level}
use gost_plugin.Main.Run.{Living, Process, handle, main_run, process, stop, stopped}
use gost_plugin.Foreign as Calling

module _ {W L T : Type 0} (makers : Options → Makers W L T) (living : Living W L T) where
  -- The world in which the listener is closed: the handler has served until the signal, and the context
  -- was cancelled.
  abbrev pub signalled : L → T → W → W
  signalled l t w = living.cancel (living.until_signal (living.serve (l, t) w))

  -- What a process has done that served with these ends, and was told to stop.
  pub record Served (o : Options) (w : W) (l : L) (t : T) (p : Process W L T) (error : Option Bytes)
      : Type 0 where
    pub before : W
    pub made : new_handler (makers o) o w ≡ (before, Calling.ok (l, t))
    pub closed : living.close l (signalled l t before) ≡ (p.world, error)

  stop-Served :
      (o : Options) (w : W) (level : ℕ) (r : W × Outcome (L × T)) (l : L) (t : T)
      (error : Option Bytes)
      → new_handler (makers o) o w ≡ r
      → (stop living r).1 ≡ stopped l t error
      → Served o w l t (process level (stop living r)) error
  stop-Served o w level (w1, Calling.failed e) l t error made h = absurd (cc)
  stop-Served o w level (w1, Calling.ok (l1, t1)) l t error made h =
      let same : l1 ≡ l = cc in
      let alike : t1 ≡ t = cc in
      let returned : (living.close l1 (signalled l1 t1 w1)).1 ≡ error = cc in
      record {
        before = w1;
        made = cc;
        closed =
            (λ i. living.close (sym same i) (signalled (sym same i) (sym alike i) w1))
            ∙ (λ i. ((living.close l1 (signalled l1 t1 w1)).0, returned i));
      }

  handle-Served :
      (o : Options) (w : W) (level : ℕ) (problem : Option ArgError) (l : L) (t : T)
      (error : Option Bytes)
      → (handle makers living w o problem).1 ≡ stopped l t error
      → (problem ≡ none) × Served o w l t (process level (handle makers living w o problem)) error
  handle-Served o w level (some e) l t error h = absurd (cc)
  handle-Served o w level none l t error h =
      (refl, stop-Served o w level (new_handler (makers o) o w) l t error refl h)

  pub run-Served :
      (env : Env) (version : Bool) (flags : Options) (w : W) (l : L) (t : T) (error : Option Bytes)
      → let p = main_run env version flags makers living w in
        p.ending ≡ stopped l t error
        → ((start env flags).error ≡ none) × Served (start env flags).options w l t p error
  unfolding main_run
  run-Served env true flags w l t error h = absurd (cc)
  run-Served env false flags w l t error h =
      handle-Served (start env flags).options w (start env flags).level (start env flags).error l t
        error h

  main_run-level :
      (env : Env) (flags : Options) (w : W)
      → (main_run env false flags makers living w).level ≡ some (start env flags).level
  unfolding main_run
  main_run-level env flags w = refl

  -- A process that ends at a signal has read its options without an error, has made both ends of its
  -- handler from them as their mode says, has served with them until the signal, has cancelled its
  -- context and then closed the listener once, at the end; the log level is one of the seven, and does
  -- not depend on the environment.
  pub main_run-Built :
      (env : Env) (flags : Options) (w : W) (l : L) (t : T) (error : Option Bytes)
      → let p = main_run env false flags makers living w in
        let o = (start env flags).options in
        p.ending ≡ stopped l t error
        → ((start env flags).error ≡ none)
          × ((w1 : W) × Built (makers o) o w w1 l t
              × (living.close l (signalled l t w1) ≡ (p.world, error)))
          × ((level : ℕ) × (p.level ≡ some level)
              × (level ≤ 6)
              × ((other : Env) → level ≡ (start other flags).level))
  main_run-Built env flags w l t error h =
      let (applied, served) = run-Served env false flags w l t error h in
      (
        applied,
        (
          served.before,
          new_handler-Built (makers (start env flags).options) (start env flags).options w
              served.before l t served.made,
          served.closed,
        ),
        (
          (start env flags).level,
          main_run-level env flags w,
          (start-level env env flags).0,
          λ other. (start-level env other flags).1,
        ),
      )
