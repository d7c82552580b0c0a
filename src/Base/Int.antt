-- ===== src/Base/Int.antt =====
-- Signed integers over the native numbers, under the library's names, and their machine words.
use Prim.Native.Nat.{ℕ, suc, ◌+◌, ◌-◌, ◌%◌, ◌^◌, ◌≤◌, ◌<◌}
use mathlib.Core.Path.{◌≡◌}
use mathlib.Core.Bool.{Bool}
use native.Mathlib.Omega.{arith}
use fers.Base.Tests.{ltb, leb, if◌then◌else◌}

-- `negsuc n` is -(n + 1).
pub data ℤ : Type 0 where
  pos : ℕ → ℤ
  negsuc : ℕ → ℤ

abbrev pub pos_part : ℤ → ℕ
pos_part (pos n) = n
pos_part (negsuc n) = 0

abbrev pub neg_part : ℤ → ℕ
neg_part (pos n) = 0
neg_part (negsuc n) = suc n

-- a - b, as an integer.
abbrev pub sub_ℕ : ℕ → ℕ → ℤ
sub_ℕ a b = if leb b a then pos (a - b) else negsuc (b - a - 1)

infixl 65 ◌+ℤ◌
abbrev pub ◌+ℤ◌ : ℤ → ℤ → ℤ
a +ℤ b = sub_ℕ (pos_part a + pos_part b) (neg_part a + neg_part b)

infix 50 ◌≤ℤ◌
abbrev pub ◌≤ℤ◌ : ℤ → ℤ → Type 0
a ≤ℤ b = pos_part a + neg_part b ≤ pos_part b + neg_part a

abbrev pub ltb_ℤ : ℤ → ℤ → Bool
ltb_ℤ a b = ltb (pos_part a + neg_part b) (pos_part b + neg_part a)

-- `static_cast<uint16_t>` of a signed value, by two's complement.
pub u16_of_ℤ : ℤ → ℕ
u16_of_ℤ (pos n) = n % 2 ^ 16
u16_of_ℤ (negsuc n) = 2 ^ 16 - 1 - n % 2 ^ 16

-- `static_cast<uint64_t>` of a signed value.
abbrev pub u64_of_ℤ : ℤ → ℕ
u64_of_ℤ (pos n) = n % 2 ^ 64
u64_of_ℤ (negsuc n) = 2 ^ 64 - 1 - n % 2 ^ 64

-- The signed value that a 16-bit word stands for.
pub i16_of_word : ℕ → ℤ
i16_of_word w = if ltb w (2 ^ 15) then pos w else negsuc (2 ^ 16 - 1 - w)

abbrev pub IsI16 : ℤ → Type 0
IsI16 (pos n) = n < 2 ^ 15
IsI16 (negsuc n) = n < 2 ^ 15

pub u16_of_ℤ-lt : (z : ℤ) → u16_of_ℤ z < 2 ^ 16
unfolding u16_of_ℤ
u16_of_ℤ-lt (pos n) = omega arith
u16_of_ℤ-lt (negsuc n) = omega arith

pub i16_of_word-u16_of_ℤ : (z : ℤ) → IsI16 z → i16_of_word (u16_of_ℤ z) ≡ z
unfolding i16_of_word u16_of_ℤ
i16_of_word-u16_of_ℤ (pos n) h = ground arith
i16_of_word-u16_of_ℤ (negsuc n) h = ground arith
