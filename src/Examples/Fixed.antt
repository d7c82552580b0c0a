-- ===== src/Examples/Fixed.antt =====
-- A number format in which the examples run: natural numbers of nanounits, where a division rounds
-- down, and a difference or a negation stops at zero. It has the behaviour that the theorems name.
use fers.Base.{ℕ, ◌+◌, ◌*◌, ◌/◌, ◌%◌, ◌^◌, ◌-◌, ◌≡◌, refl, ap, true, false, arith, ltb, leb, ◌==◌}
use fers.Base.Int.{pos}
use fers.Floats.{Float, Floats}
use fers.Vita49.Timestamp.{ps_per_second, fraction_sum}
use fers.Vita49.Timestamp.Laws.{TimestampLaws}

abbrev pub unit : ℕ
unit = 1_000_000_000

abbrev pub fixed : Float ℕ
fixed = record {
  is_finite = λ x. true;
  lt = ltb;
  le = leb;
  eq = λ x y. x == y;
  add = λ x y. x + y;
  sub = λ x y. x - y;
  mul = λ x y. x * y / unit;
  div = λ x y. x * unit / y;
  neg = λ x. 0;
  floor = λ x. x / unit * unit;
  ceil = λ x. (x + 999_999_999) / unit * unit;
  round = λ x. x / unit * unit;
  of_ℕ = λ n. n * unit;
  to_ℤ = λ x. pos (x / unit);
}

abbrev pub numbers : Floats
numbers = record {
  R = ℕ;
  L = ℕ;
  double = fixed;
  long_double = fixed;
  widen = λ x. x;
  llround = λ x. pos (x / unit);
  bits = λ x. x % 2 ^ 64;
}

pub fixed-asymmetric : (a b : ℕ) → fixed.lt a b ≡ true → fixed.lt b a ≡ false
fixed-asymmetric a b h = ground arith

pub fixed-transitive :
    (a b c : ℕ) → fixed.lt a b ≡ false → fixed.lt b c ≡ false → fixed.lt a c ≡ false
fixed-transitive a b c h g = ground arith

pub fixed-TimestampLaws : TimestampLaws numbers
unfolding fraction_sum
fixed-TimestampLaws = record {
  fraction_range = λ ns t h. (refl, ground arith, ground arith);
  sub_one = λ x h g k. (refl, ground arith, ground arith);
  scaled_range = λ x h. (x * ps_per_second / 1_000_000_000, ap pos (omega arith), ground arith);
}
