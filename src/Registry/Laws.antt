-- ===== src/Registry/Laws.antt =====
-- The registry as a map, and the run of the controllers.
use gost_plugin.Common.{
  Bytes, List, Option, [], ap, append-nil, append_assoc, arith, equal, equal_iff, if◌then◌else◌,
  none, refl, some, sym, ◌++◌, ◌∙◌, ◌∷◌, ◌≡◌,
}
use gost_plugin.Registry.{
  Controller, Creators, apply_controllers, get_creator, register, register_controller,
}

-- After a registration its name leads to the new creator, and every other name to what it led to.
pub get_creator-register {ℓ} :
    {A : Type ℓ} (m : Creators A) (name other : Bytes) (a : A)
    → get_creator (register m name a) other
      ≡ (if equal name other then some a else get_creator m other)
unfolding get_creator register
get_creator-register [] name other a = refl
get_creator-register ((k, b) ∷ m) name other a = ground (
  arith,
  equal_iff k name,
  equal_iff k other,
  equal_iff name other,
  get_creator-register m name other a,
)

abbrev pub accepted : {A : Type 0} → List (Option A) → List A
accepted [] = []
accepted (none ∷ cs) = accepted cs
accepted (some c ∷ cs) = c ∷ accepted cs

abbrev pub register_all : {A : Type 0} → List A → List (Option A) → List A
register_all cs [] = cs
register_all cs (c ∷ ds) = register_all (register_controller cs c).0 ds

abbrev pub changed : {W : Type 0} → List (Controller W) → W → W
changed [] w = w
changed (c ∷ cs) w = changed cs (c w).0

abbrev pub errors : {W : Type 0} → List (Controller W) → W → List Bytes
errors [] w = []
errors (c ∷ cs) w = elim (c w).1 [ none ↦ errors cs (c w).0 | some e ↦ e ∷ errors cs (c w).0 ]

register_all_lem :
    {A : Type 0} (cs : List A) (ds : List (Option A)) → register_all cs ds ≡ cs ++ accepted ds
unfolding register_controller
register_all_lem cs [] = sym (append-nil cs)
register_all_lem cs (none ∷ ds) = register_all_lem cs ds
register_all_lem cs (some d ∷ ds) =
    register_all_lem (cs ++ d ∷ []) ds ∙ append_assoc cs (d ∷ []) (accepted ds)

apply_controllers_lem :
    {W : Type 0} (cs : List (Controller W)) (w : W)
    → apply_controllers cs w ≡ (changed cs w, errors cs w)
unfolding apply_controllers
apply_controllers_lem [] w = refl
apply_controllers_lem (c ∷ cs) w = ground (arith, apply_controllers_lem cs (c w).0)

-- Whatever was registered, nil controllers among it, a socket goes through every controller in the
-- order of registration, each in the state that the one before left, and an error is logged without
-- stopping the others.
pub apply_controllers-register_all :
    {W : Type 0} (ds : List (Option (Controller W))) (w : W)
    → apply_controllers (register_all [] ds) w ≡ (changed (accepted ds) w, errors (accepted ds) w)
apply_controllers-register_all ds w =
    ap (λ cs. apply_controllers cs w) (register_all_lem [] ds)
    ∙ apply_controllers_lem (accepted ds) w
