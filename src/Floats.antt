-- ===== src/Floats.antt =====
-- Floating-point arithmetic, which the C++ language provides: `RealType` (double) and long double.
-- The models take it as a parameter, and theorems name the IEEE 754 behaviour that they rely on.
use fers.Base.{ℕ, Bool}
use fers.Base.Int.{ℤ}

-- The operations of one floating-point type. `to_ℤ` is the cast to an integer type.
pub record Float (A : Type 0) : Type 0 where
  pub is_finite : A → Bool
  pub lt : A → A → Bool
  pub le : A → A → Bool
  pub eq : A → A → Bool
  pub add : A → A → A
  pub sub : A → A → A
  pub mul : A → A → A
  pub div : A → A → A
  pub neg : A → A
  pub floor : A → A
  pub ceil : A → A
  pub round : A → A
  pub of_ℕ : ℕ → A
  pub to_ℤ : A → ℤ

-- `bits` is `std::bit_cast<uint64_t>`.
pub record Floats : Type 1 where
  pub R : Type 0
  pub L : Type 0
  pub double : Float R
  pub long_double : Float L
  pub widen : R → L
  pub llround : L → ℤ
  pub bits : R → ℕ
