-- ===== src/Foreign.antt =====
-- Results of foreign calls, and chains of them over a state of the outside world.
use gost_plugin.Common.{Bytes, refl, ◌≡◌}

-- A value, or an error by its text.
pub data Outcome {ℓ} (A : Type ℓ) : Type ℓ where
  ok : A → Outcome A
  failed : Bytes → Outcome A

abbrev pub Calls : Type 0 → Type 0 → Type 0
Calls W A = W → W × Outcome A

module _ {W : Type 0} where
  -- `x, err = …; if err != nil { return nil, err }`, and what follows.
  abbrev pub and_then : {A B : Type 0} → W × Outcome A → (A → Calls W B) → W × Outcome B
  and_then (w, ok a) k = k a w
  and_then (w, failed err) k = (w, failed err)

  infixl 5 ◌>>=◌
  abbrev pub ◌>>=◌ : {A B : Type 0} → Calls W A → (A → Calls W B) → Calls W B
  ◌>>=◌ m k w = and_then (m w) k

  abbrev pub done : {A : Type 0} → A → Calls W A
  done a w = (w, ok a)

  -- A call that leaves the state of the world alone.
  abbrev pub pure_call : {A : Type 0} → Outcome A → Calls W A
  pure_call r w = (w, r)

  -- A success of a chain is a success of its parts.
  pub and_then-ok :
      {A B : Type 0} (r : W × Outcome A) (k : A → Calls W B) (w2 : W) (b : B)
      → and_then r k ≡ (w2, ok b)
      → (w1 : W) × (a : A) × (r ≡ (w1, ok a)) × (k a w1 ≡ (w2, ok b))
  and_then-ok (w, ok a) k w2 b h = (w, a, refl, h)
  and_then-ok (w, failed err) k w2 b h = absurd (cc)
