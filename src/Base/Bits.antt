-- ===== src/Base/Bits.antt =====
-- `|` of fields that do not overlap is a sum, at every width.
use Prim.Native.Nat.{digits, bit_or-bitwise}
use native.Mathlib.Nat.{pow-suc}
use Prim.Native.Nat.{ℕ, zero, suc, ◌+◌, ◌*◌, ◌/◌, ◌%◌, ◌^◌, ◌≤◌, ◌<◌, max, bit_or}
use mathlib.Core.Path.{◌≡◌, refl, ap}
use native.Mathlib.Omega.{arith}

abbrev or_digits : ℕ → ℕ → ℕ → ℕ
or_digits fuel a b = digits (λ y. y) max fuel a b

-- Any fuel from `a` on computes the same digits.
or_digits-fuel : (n m a b : ℕ) → a ≤ n → a ≤ m → or_digits n a b ≡ or_digits m a b
or_digits-fuel zero zero a b p q = refl
or_digits-fuel zero (suc m) zero b p q = refl
or_digits-fuel (suc n) zero zero b p q = refl
or_digits-fuel (suc n) (suc m) zero b p q = refl
or_digits-fuel zero m (suc a) b p q = absurd (omega arith)
or_digits-fuel (suc n) zero (suc a) b p q = absurd (omega arith)
or_digits-fuel (suc n) (suc m) (suc a) b p q =
    omega (arith, or_digits-fuel n m (suc a / 2) (b / 2) (omega arith) (omega arith))

zero-bit_or : (b : ℕ) → bit_or 0 b ≡ b
zero-bit_or b = bit_or-bitwise 0 b

-- The lowest digit of a disjunction, and the rest of it.
pub bit_or-halves : (a b : ℕ) → bit_or a b ≡ bit_or (a / 2) (b / 2) * 2 + max (a % 2) (b % 2)
bit_or-halves zero b = omega (arith, zero-bit_or b, zero-bit_or (b / 2))
bit_or-halves (suc a) b = omega (
  arith,
  bit_or-bitwise (suc a) b,
  bit_or-bitwise (suc a / 2) (b / 2),
  or_digits-fuel a (suc a / 2) (suc a / 2) (b / 2) (omega arith) (omega arith),
)

bit_or-zero_below : (n a : ℕ) → a ≤ n → bit_or a 0 ≡ a
bit_or-zero_below n zero h = refl
bit_or-zero_below zero (suc a) h = absurd (omega arith)
bit_or-zero_below (suc n) (suc a) h =
    omega (arith, bit_or-halves (suc a) 0, bit_or-zero_below n (suc a / 2) (omega arith))

pub bit_or-zero : (a : ℕ) → bit_or a 0 ≡ a
bit_or-zero a = bit_or-zero_below a a (omega arith)

-- `high << k | low`, where `low` has `k` bits.
bit_or-shifted : (k high low : ℕ) → low < 2 ^ k → bit_or (high * 2 ^ k) low ≡ high * 2 ^ k + low
bit_or-shifted zero high low h =
    let e : low ≡ 0 = omega arith in rw e (omega (arith, bit_or-zero (high * 1)))
bit_or-shifted (suc k) high low h =
    let wide : high * 2 ^ suc k ≡ 2 * (high * 2 ^ k) =
      omega (arith, ap (λ (t : ℕ). high * t) (pow-suc 2 k)) in
    let half_of : high * 2 ^ suc k / 2 ≡ high * 2 ^ k = omega arith in
    omega (
      arith,
      bit_or-halves (high * 2 ^ suc k) low,
      ap (λ (t : ℕ). bit_or t (low / 2)) half_of,
      bit_or-shifted k high (low / 2) (omega (arith, pow-suc 2 k)),
    )

-- A word whose low `k` bits are clear, or'ed with a field of `k` bits.
pub bit_or-field :
    (k word field : ℕ) → word % 2 ^ k ≡ 0 → field < 2 ^ k → bit_or word field ≡ word + field
bit_or-field k word field clear fits =
    let e : word ≡ word / 2 ^ k * 2 ^ k = grind arith in
    rw e (bit_or-shifted k (word / 2 ^ k) field fits)

bit_or-comm_below : (n a b : ℕ) → a ≤ n → b ≤ n → bit_or a b ≡ bit_or b a
bit_or-comm_below zero zero zero p q = refl
bit_or-comm_below zero zero (suc b) p q = absurd (omega arith)
bit_or-comm_below zero (suc a) b p q = absurd (omega arith)
bit_or-comm_below (suc n) a b p q = omega (
  arith,
  bit_or-halves a b,
  bit_or-halves b a,
  bit_or-comm_below n (a / 2) (b / 2) (omega arith) (omega arith),
)

pub bit_or_comm : (a b : ℕ) → bit_or a b ≡ bit_or b a
bit_or_comm a b = bit_or-comm_below (a + b) a b (omega arith) (omega arith)

-- `x & (2 ^ k - 1)`.
abbrev pub low_bits : ℕ → ℕ → ℕ
low_bits x k = x % 2 ^ k

-- `x >> k`.
abbrev pub shr : ℕ → ℕ → ℕ
shr x k = x / 2 ^ k

-- A bit of a word, as a number and as a test.
abbrev pub bit : ℕ → ℕ → ℕ
bit x k = x / 2 ^ k % 2
