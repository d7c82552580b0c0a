-- ===== src/Base/Exceptions.antt =====
-- Calls that may throw. An exception is recorded by its standard class; its text is not kept.
use mathlib.Core.Path.{◌≡◌, refl}
use mathlib.Core.Logic.{◌⊎◌, inl, inr}
use mathlib.Core.Bool.{Bool, true, false}

pub data Error : Type 0 where
  invalid_argument out_of_range logic_error length_error runtime_error overflow_error : Error

-- A call's value, or what it throws.
pub data Result {ℓ} (A : Type ℓ) : Type ℓ where
  ok : A → Result A
  err : Error → Result A

pub Result-cases {ℓ} :
    {A : Type ℓ} (r : Result A) → ((a : A) × (r ≡ ok a)) ⊎ ((e : Error) × (r ≡ err e))
Result-cases (ok a) = inl (a, refl)
Result-cases (err e) = inr (e, refl)

-- `if (bad) throw e;`
abbrev pub throw_if : Bool → Error → Result (Unit {0})
throw_if bad e = elim bad [ true ↦ err e | false ↦ ok tt ]

module _ {ℓ κ} {A : Type ℓ} {B : Type κ} where
  infixl 5 ◌>>=◌ ◌>>◌
  abbrev pub ◌>>=◌ : Result A → (A → Result B) → Result B
  err e >>= after = err e
  ok a >>= after = after a

  -- The value is not looked at.
  abbrev pub ◌>>◌ : Result A → Result B → Result B
  err e >> after = err e
  ok a >> after = after
