-- ===== src/Vita49/Timestamp/Laws.antt =====
-- What a timestamp is: when the conversion throws, and the range and value of what it returns.
use fers.Base.{
  ℕ, zero, suc, ◌+◌, ◌*◌, ◌^◌, ◌≤◌, ◌<◌, ◌≡◌, true, false, ◌⊎◌, inl, inr, ok, err, invalid_argument,
  arith, Bool-cases, leb, ◌==◌, out_of_range, ◌-◌, ◌/◌, ap, ◌∙◌, refl, Bool, if◌then◌else◌,
}
use fers.Base.Int.{ℤ, pos, negsuc, ◌+ℤ◌, pos_part, u64_of_ℤ}
use fers.Floats.{Floats}
use fers.Vita49.Types.{Timestamp}
use fers.Vita49.Timestamp.{
  ns_per_second, ps_per_second, Carry, carry_down, carry_up, fraction_sum, carried, signed_seconds,
  rounded_picoseconds, finish, timestamp_from_epoch,
}

module _ (F : Floats) where
  open F use {R, L, double, long_double, widen, llround}

  abbrev pub IsFraction : L → Type 0
  IsFraction x =
      (long_double.is_finite x ≡ true)
      × (long_double.le (long_double.of_ℕ 1) x ≡ false)
      × (long_double.lt x (long_double.of_ℕ 0) ≡ false)

  -- IEEE 754 facts about long double. A nanosecond count below a second, divided by 10^9, is below
  -- one, and a double less its floor is from zero to one; their sum is from zero to below two.
  -- Subtracting one from a value in [1, 2) is exact. A value in [0, 1) scaled by 10^12 and rounded to
  -- an integer is at most 10^12.
  pub record TimestampLaws : Type 0 where
    pub fraction_range :
        (ns : ℕ) (t : R)
        → double.is_finite t ≡ true
        → (long_double.is_finite (fraction_sum F ns t) ≡ true)
          × (long_double.lt (fraction_sum F ns t) (long_double.of_ℕ 0) ≡ false)
          × (long_double.lt (fraction_sum F ns t) (long_double.of_ℕ 2) ≡ true)
    pub sub_one :
        (x : L)
        → long_double.is_finite x ≡ true
        → long_double.le (long_double.of_ℕ 1) x ≡ true
        → long_double.lt x (long_double.of_ℕ 2) ≡ true
        → IsFraction (long_double.sub x (long_double.of_ℕ 1))
    pub scaled_range :
        (x : L)
        → IsFraction x
        → (n : ℕ) × (llround (long_double.mul x (long_double.of_ℕ ps_per_second)) ≡ pos n)
          × (n ≤ ps_per_second)

  -- Whether the two fractions of a second add up to a second or more.
  abbrev pub makes_second : ℕ → R → Bool
  makes_second ns t = long_double.le (long_double.of_ℕ 1) (fraction_sum F ns t)

  -- The whole seconds of the epoch and of the sample time, and one that the fractions make.
  abbrev pub whole_seconds : ℕ → R → ℤ
  whole_seconds ns t =
      pos (ns / ns_per_second)
      +ℤ long_double.to_ℤ (long_double.floor (widen t))
      +ℤ (if makes_second ns t then pos 1 else pos 0)

  -- The fraction of a second that is left.
  abbrev pub fraction_left : ℕ → R → L
  fraction_left ns t =
      if makes_second ns t
      then long_double.sub (fraction_sum F ns t) (long_double.of_ℕ 1)
      else fraction_sum F ns t

  abbrev pub left_picoseconds : ℕ → R → ℕ
  left_picoseconds ns t =
      u64_of_ℤ (llround (long_double.mul (fraction_left ns t) (long_double.of_ℕ ps_per_second)))

  carry_down_same :
      (fuel : ℕ) (c : Carry F) → IsFraction c.fractional_seconds → carry_down F fuel c ≡ c
  unfolding carry_down
  carry_down_same zero c h = refl
  carry_down_same (suc fuel) c h = rw (h.1, carry_down) refl

  carry_up_same : (fuel : ℕ) (c : Carry F) → IsFraction c.fractional_seconds → carry_up F fuel c ≡ c
  unfolding carry_up
  carry_up_same zero c h = refl
  carry_up_same (suc fuel) c h = rw (h.2, carry_up) refl

  abbrev exact_carry : ℕ → R → Carry F
  exact_carry ns t = record {
    fractional_seconds = fraction_left ns t;
    carry_seconds = if makes_second ns t then pos 1 else pos 0;
  }

  module _ (laws : TimestampLaws) (ns : ℕ) (t : R) (finite : double.is_finite t ≡ true) where
    abbrev first_carry : Carry F
    first_carry = record { fractional_seconds = fraction_sum F ns t; carry_seconds = pos 0 }

    fraction_left-IsFraction : IsFraction (fraction_left ns t)
    fraction_left-IsFraction =
        let range = laws.fraction_range ns t finite in
        elim (Bool-cases (makes_second ns t)) [
          | inl e ↦ rw e (laws.sub_one (fraction_sum F ns t) range.0 e range.2)
          | inr e ↦ rw e (range.0, e, range.1)
        ]

    carry_down-exact : carry_down F 2 first_carry ≡ exact_carry ns t
    unfolding carry_down
    carry_down-exact =
        let fraction = fraction_left-IsFraction in
        elim (Bool-cases (makes_second ns t)) [
          | inl e ↦
              (let range = laws.fraction_range ns t finite in
                rw (e, carry_down)
                  (carry_down_same 1
                    (record {
                      fractional_seconds =
                          long_double.sub (fraction_sum F ns t) (long_double.of_ℕ 1);
                      carry_seconds = pos 1;
                    })
                    (laws.sub_one (fraction_sum F ns t) range.0 e range.2)))
          | inr e ↦ rw (e, carry_down) refl
        ]

    -- The two loops end by their tests, so that the fuel is enough, and carry one second at most.
    pub carried_lem : carried F ns t ≡ exact_carry ns t
    unfolding carried
    carried_lem =
        ap (carry_up F 2) carry_down-exact
        ∙ carry_up_same 2 (exact_carry ns t) fraction_left-IsFraction

    signed_seconds_lem : signed_seconds F ns t ≡ whole_seconds ns t
    unfolding signed_seconds
    signed_seconds_lem =
        ap
          (λ c.
            pos (ns / ns_per_second)
            +ℤ long_double.to_ℤ (long_double.floor (widen t))
            +ℤ c.carry_seconds)
          carried_lem

    rounded_picoseconds_lem : rounded_picoseconds F ns t ≡ left_picoseconds ns t
    unfolding rounded_picoseconds
    rounded_picoseconds_lem =
        ap
          (λ c.
            u64_of_ℤ
              (llround (long_double.mul c.fractional_seconds (long_double.of_ℕ ps_per_second))))
          carried_lem

    left_picoseconds-le : left_picoseconds ns t ≤ ps_per_second
    left_picoseconds-le =
        let (n, e, h) = laws.scaled_range _ fraction_left-IsFraction in rw e (omega arith)

  abbrev pub total_picoseconds : Timestamp → ℕ
  total_picoseconds stamp = stamp.integer_seconds * ps_per_second + stamp.fractional_picoseconds

  finish_lem :
      (seconds picoseconds : ℕ) {stamp : Timestamp}
      → seconds < 2 ^ 32
      → picoseconds ≤ ps_per_second
      → finish F seconds picoseconds ≡ ok stamp
      → (stamp.integer_seconds < 2 ^ 32)
        × (stamp.fractional_picoseconds < ps_per_second)
        × (total_picoseconds stamp ≡ seconds * ps_per_second + picoseconds)
  unfolding finish
  finish_lem seconds picoseconds hs hp e = ground arith

  -- Under the IEEE 754 laws in `TimestampLaws`, a timestamp that is returned fits the packet's fields: 32
  -- bits of seconds, and picoseconds below a second. Its value is that of the whole seconds, which are
  -- those of the epoch and of the sample time and one more where the two fractions of a second add up
  -- to one, and of the fraction that is left, rounded to picoseconds, also where it rounds up to a
  -- second.
  pub timestamp_from_epoch_value :
      (laws : TimestampLaws) (ns : ℕ) (t : R) {stamp : Timestamp}
      → timestamp_from_epoch F ns t ≡ ok stamp
      → (stamp.integer_seconds < 2 ^ 32)
        × (stamp.fractional_picoseconds < ps_per_second)
        × (whole_seconds ns t ≡ pos (pos_part (whole_seconds ns t)))
        × (total_picoseconds stamp
            ≡ pos_part (whole_seconds ns t) * ps_per_second + left_picoseconds ns t)
  unfolding timestamp_from_epoch
  timestamp_from_epoch_value laws ns t e = elim (Bool-cases (double.is_finite t)) [
    | inl finite ↦ ground (
      arith,
      signed_seconds_lem laws ns t finite,
      rounded_picoseconds_lem laws ns t finite,
      left_picoseconds-le laws ns t finite,
      finish_lem (pos_part (signed_seconds F ns t)) (rounded_picoseconds F ns t),
    )
    | inr infinite ↦ ground arith
  ]

  -- Under the IEEE 754 laws in `TimestampLaws`, for a finite sample time: let the whole seconds be
  -- those of the epoch and of the sample time, and one more where the two fractions of a second add up
  -- to one. Where they are not negative, either they and the fraction that is left, rounded to
  -- picoseconds, are together less than 2^32 seconds, and a timestamp of that value is returned, or
  -- they are not, and the conversion throws.
  pub timestamp_from_epoch_returns :
      (laws : TimestampLaws) (ns : ℕ) (t : R) (n : ℕ)
      → double.is_finite t ≡ true
      → whole_seconds ns t ≡ pos n
      → ((n * ps_per_second + left_picoseconds ns t < 2 ^ 32 * ps_per_second)
          × ((stamp : Timestamp) × (timestamp_from_epoch F ns t ≡ ok stamp)
              × (total_picoseconds stamp ≡ n * ps_per_second + left_picoseconds ns t)))
        ⊎ ((2 ^ 32 * ps_per_second ≤ n * ps_per_second + left_picoseconds ns t)
            × (timestamp_from_epoch F ns t ≡ err out_of_range))
  unfolding timestamp_from_epoch finish
  timestamp_from_epoch_returns laws ns t n finite e =
      let seconds : signed_seconds F ns t ≡ pos n = signed_seconds_lem laws ns t finite ∙ e in
      let picoseconds = rounded_picoseconds_lem laws ns t finite in
      let range = left_picoseconds-le laws ns t finite in
      let up : Timestamp = record {
        integer_seconds = n + 1;
        fractional_picoseconds = rounded_picoseconds F ns t - ps_per_second;
      } in
      let down : Timestamp = record {
        integer_seconds = n;
        fractional_picoseconds = rounded_picoseconds F ns t;
      } in
      elim (Bool-cases (leb (2 ^ 32) n)) [
        | inl beyond ↦ inr (ground arith, ground arith)
        | inr within ↦ elim (Bool-cases (leb ps_per_second (rounded_picoseconds F ns t))) [
          | inr below ↦ inl (ground arith, (down, ground arith, ground arith))
          | inl above ↦ elim (Bool-cases (n == 2 ^ 32 - 1)) [
            | inl last ↦ inr (ground arith, ground arith)
            | inr earlier ↦ inl (ground arith, (up, ground arith, ground arith))
          ]
        ]
      ]

  -- A timestamp is returned where the whole seconds are below the last that fits.
  pub timestamp_from_epoch_ok :
      (laws : TimestampLaws) (ns : ℕ) (t : R) (n : ℕ)
      → double.is_finite t ≡ true
      → whole_seconds ns t ≡ pos n
      → n < 2 ^ 32 - 1
      → (stamp : Timestamp) × (timestamp_from_epoch F ns t ≡ ok stamp)
  timestamp_from_epoch_ok laws ns t n finite e h =
      elim (timestamp_from_epoch_returns laws ns t n finite e) [
        | inl (fits, (stamp, made, value)) ↦ (stamp, made)
        | inr (beyond, thrown) ↦
            absurd (omega (arith, beyond, h, left_picoseconds-le laws ns t finite))
      ]

  -- It refuses a sample time that is not finite.
  pub timestamp_from_epoch_infinite :
      (ns : ℕ) (t : R)
      → double.is_finite t ≡ false
      → timestamp_from_epoch F ns t ≡ err invalid_argument
  unfolding timestamp_from_epoch
  timestamp_from_epoch_infinite ns t h = rw h

  -- The conversion refuses a finite sample time whose whole second, counted from the Unix epoch, is
  -- negative or at least 2^32.
  pub timestamp_from_epoch_beyond :
      (ns : ℕ) (t : R) (n : ℕ)
      → double.is_finite t ≡ true
      → (signed_seconds F ns t ≡ negsuc n) ⊎ ((signed_seconds F ns t ≡ pos n) × (2 ^ 32 ≤ n))
      → timestamp_from_epoch F ns t ≡ err out_of_range
  unfolding timestamp_from_epoch
  timestamp_from_epoch_beyond ns t n h out = ground arith
