-- ===== src/Registry.antt =====
-- registry/registry.go: the creators by the name of a mode, and the controllers of sockets.
pub mod Laws
use gost_plugin.Common.{Bytes, List, Option, [], codes, equal, if◌then◌else◌, none, some, ◌++◌, ◌∷◌}

-- `map[string]ListenerCreator` and `map[string]TransporterCreator`
abbrev pub Creators {ℓ} : Type ℓ → Type ℓ
Creators A = List (Bytes × A)

module _ {ℓ} {A : Type ℓ} where
  -- `RegisterListener` and `RegisterTransporter`
  unfoldable pub register : Creators A → Bytes → A → Creators A
  register [] name a = (name, a) ∷ []
  register ((k, b) ∷ m) name a = if equal k name then (k, a) ∷ m else (k, b) ∷ register m name a

  -- `GetListenerCreator` and `GetTransporterCreator`; `none` is their error.
  unfoldable pub get_creator : Creators A → Bytes → Option A
  get_creator [] name = none
  get_creator ((k, a) ∷ m) name = if equal k name then some a else get_creator m name

  -- `RegisterDialController` and `RegisterListenController`: the list, and the error. `none` is nil.
  unfoldable pub register_controller : List A → Option A → List A × Option Bytes
  register_controller cs none = (cs, some (codes "Nil Controller"))
  register_controller cs (some c) = (cs ++ c ∷ [], none)

-- A controller on one socket: what it does to the outside world, and its error.
abbrev pub Controller : Type 0 → Type 0
Controller W = W → W × Option Bytes

abbrev pub logged : Option Bytes → List Bytes → List Bytes
logged none log = log
logged (some err) log = err ∷ log

-- The functions that `GetDialControl` and `GetListenControl` give to `RawConn.Control`: the world
-- behind all the controllers, and the errors that were logged.
unfoldable pub apply_controllers : {W : Type 0} → List (Controller W) → W → W × List Bytes
apply_controllers [] w = (w, [])
apply_controllers (c ∷ cs) w = let r = apply_controllers cs (c w).0 in (r.0, logged (c w).1 r.1)
