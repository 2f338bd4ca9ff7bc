-- ===== src/Args/Result.antt =====
-- The error results of args/args.go. An error keeps what its message quotes.
use gost_plugin.Common.{Bytes, inl, inr, refl, ◌≡◌, ◌≢◌, ◌⊎◌}

pub data ArgError : Type 0 where
  nothing_follows : Bytes → ArgError
  empty_key : Bytes → ArgError
  bad_syntax : Bytes → ArgError
  out_of_range : Bytes → ArgError
  out_of_fuel : ArgError

pub data Result {ℓ} (A : Type ℓ) : Type ℓ where
  ok : A → Result A
  err : ArgError → Result A

infixl 5 ◌>>=◌
abbrev pub ◌>>=◌ {ℓ κ} : {A : Type ℓ} {B : Type κ} → Result A → (A → Result B) → Result B
ok a >>= f = f a
err e >>= f = err e

pub Result-cases {ℓ} :
    {A : Type ℓ} (r : Result A) → ((a : A) × (r ≡ ok a)) ⊎ ((e : ArgError) × (r ≡ err e))
Result-cases (ok a) = inl (a, refl)
Result-cases (err e) = inr (e, refl)

pub ok-injective {ℓ} : {A : Type ℓ} {a b : A} → ok a ≡ ok b → a ≡ b
ok-injective h = cc

pub err-ne-ok {ℓ} : {A : Type ℓ} {a : A} {e : ArgError} → err e ≢ ok a
err-ne-ok h = cc

pub err-injective {ℓ} : {A : Type ℓ} {d e : ArgError} → ◌≡◌ {A = Result A} (err d) (err e) → d ≡ e
err-injective h = cc
