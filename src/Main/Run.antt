-- ===== src/Main/Run.antt =====
-- `main` of main.go from the parsed flags to the end of the process.
pub mod Laws
use gost_plugin.Args.Addr.{Options}
use gost_plugin.Args.Env.{Env}
use gost_plugin.Args.Result.{ArgError, ok}
use gost_plugin.Common.{Bool, Bytes, Option, if◌then◌else◌, none, some, ℕ}
use gost_plugin.Foreign.{Outcome, failed}
use gost_plugin.Handler.Ends.{Makers, handler_close, new_handler}
use gost_plugin.Main.{start}
use gost_plugin.Foreign as Calling

-- How a process ends: with its version printed, at one of the two calls of `log.Fatalf`, which exits
-- with status 1 by itself, or at a signal, with the error of the deferred `handler.Close()`.
pub data Ending (L T : Type 0) : Type 0 where
  version_shown : Ending L T
  bad_options : ArgError → Ending L T
  no_handler : Bytes → Ending L T
  stopped : L → T → Option Bytes → Ending L T

-- `level` is what `log.SetLevel` was called with.
pub record Process (W L T : Type 0) : Type 0 where
  pub level : Option ℕ
  pub world : W
  pub ending : Ending L T

-- What the process does behind `newHandler`, on the world: `handler.Serve(ctx)`, which starts the goroutines
-- of Handler.System, the wait `<-osSignals` with all that they do meanwhile, `cancel()`, and `Close` of
-- the listener, with its error.
pub record Living (W L T : Type 0) : Type 0 where
  pub serve : L × T → W → W
  pub until_signal : W → W
  pub cancel : W → W
  pub close : L → W → W × Option Bytes

module _ {W L T : Type 0} where
  -- The handler serves, and at the signal the deferred function cancels the context and closes it.
  abbrev pub stop : Living W L T → W × Outcome (L × T) → W × Ending L T
  stop living (w, Calling.failed error) = (w, no_handler error)
  stop living (w, Calling.ok (l, t)) =
      let signalled = living.until_signal (living.serve (l, t) w) in
      let r = handler_close living.close (l, t) (living.cancel signalled) in (r.0, stopped l t r.1)

  -- What follows on `args.ApplyOptions`.
  abbrev pub handle :
      (Options → Makers W L T) → Living W L T → W → Options → Option ArgError → W × Ending L T
  handle makers living w o (some error) = (w, bad_options error)
  handle makers living w o none = stop living (new_handler (makers o) o w)

  abbrev pub process : ℕ → W × Ending L T → Process W L T
  process level r = record { level = some level; world = r.0; ending = r.1 }

  -- `version` and the options are what the flags give; the constructors read the options from the
  -- context that `ApplyOptions` made.
  unfoldable pub main_run :
      Env → Bool → Options → (Options → Makers W L T) → Living W L T → W → Process W L T
  unfolding start new_handler
  main_run env version flags makers living w =
      if version
      then record { level = none; world = w; ending = version_shown }
      else process (start env flags).level
          (handle makers living w (start env flags).options (start env flags).error)
