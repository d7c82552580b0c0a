-- ===== src/Vita49/Timestamp.antt =====
-- `timestampFromEpoch` of packages/libfers/src/serial/vita49/vita49_types.cpp.
-- The source's signed 64-bit sums are taken without their wrap-around, which C++ leaves undefined.
pub mod Laws
use fers.Base.{
  ℕ, zero, suc, ◌+◌, ◌-◌, ◌/◌, ◌%◌, ◌^◌, true, false, not, ◌||◌, Result, ok, err, ◌>>◌, throw_if,
  invalid_argument, out_of_range, leb, ◌==◌, if◌then◌else◌,
}
use fers.Base.Int.{ℤ, pos, negsuc, ◌+ℤ◌, ltb_ℤ, pos_part, u64_of_ℤ}
use fers.Floats.{Floats}
use fers.Vita49.Types.{Timestamp}

abbrev pub ns_per_second : ℕ
ns_per_second = 1_000_000_000

abbrev pub ps_per_second : ℕ
ps_per_second = 1_000_000_000_000

module _ (F : Floats) where
  open F use {R, L, double, long_double, widen, llround}

  -- Seconds below a whole second, and the whole seconds carried out of them.
  pub record Carry : Type 0 where
    pub fractional_seconds : L
    pub carry_seconds : ℤ

  -- `while (fractional_seconds >= 1.0L)`.
  unfoldable pub carry_down : ℕ → Carry → Carry
  carry_down zero c = c
  carry_down (suc fuel) c = elim (long_double.le (long_double.of_ℕ 1) c.fractional_seconds) [
    | true ↦ carry_down fuel (record {
      fractional_seconds = long_double.sub c.fractional_seconds (long_double.of_ℕ 1);
      carry_seconds = c.carry_seconds +ℤ pos 1;
    })
    | false ↦ c
  ]

  -- `while (fractional_seconds < 0.0L)`.
  unfoldable pub carry_up : ℕ → Carry → Carry
  carry_up zero c = c
  carry_up (suc fuel) c = elim (long_double.lt c.fractional_seconds (long_double.of_ℕ 0)) [
    | true ↦ carry_up fuel (record {
      fractional_seconds = long_double.add c.fractional_seconds (long_double.of_ℕ 1);
      carry_seconds = c.carry_seconds +ℤ negsuc 0;
    })
    | false ↦ c
  ]

  -- The sum of the two fractions of a second, before the loops.
  unfoldable pub fraction_sum : ℕ → R → L
  fraction_sum epoch_unix_nanoseconds sample_time_seconds =
      let offset_seconds = widen sample_time_seconds in
      long_double.add
        (long_double.div (long_double.of_ℕ (epoch_unix_nanoseconds % ns_per_second))
          (long_double.of_ℕ ns_per_second))
        (long_double.sub offset_seconds (long_double.floor offset_seconds))

  -- Two rounds of each loop are enough: see `carry_loops_exit` in Vita49/Timestamp/Laws.
  unfoldable pub carried : ℕ → R → Carry
  unfolding carry_down carry_up fraction_sum
  carried epoch_unix_nanoseconds sample_time_seconds = carry_up 2 (
      carry_down 2 (record {
        fractional_seconds = fraction_sum epoch_unix_nanoseconds sample_time_seconds;
        carry_seconds = pos 0;
      }))

  unfoldable pub signed_seconds : ℕ → R → ℤ
  unfolding carried
  signed_seconds epoch_unix_nanoseconds sample_time_seconds =
      pos (epoch_unix_nanoseconds / ns_per_second)
      +ℤ long_double.to_ℤ (long_double.floor (widen sample_time_seconds))
      +ℤ (carried epoch_unix_nanoseconds sample_time_seconds).carry_seconds

  unfoldable pub rounded_picoseconds : ℕ → R → ℕ
  unfolding carried
  rounded_picoseconds epoch_unix_nanoseconds sample_time_seconds = u64_of_ℤ (
      llround (
        long_double.mul (carried epoch_unix_nanoseconds sample_time_seconds).fractional_seconds
          (long_double.of_ℕ ps_per_second)))

  -- The last block: picoseconds that round up to a whole second.
  unfoldable pub finish : ℕ → ℕ → Result Timestamp
  finish seconds picoseconds =
      if leb ps_per_second picoseconds
      then (if seconds == 2 ^ 32 - 1
          then err out_of_range
          else ok (record {
            integer_seconds = seconds + 1;
            fractional_picoseconds = picoseconds - ps_per_second;
          }))
      else ok (record { integer_seconds = seconds; fractional_picoseconds = picoseconds })

  unfoldable pub timestamp_from_epoch : ℕ → R → Result Timestamp
  unfolding finish
  timestamp_from_epoch epoch_unix_nanoseconds sample_time_seconds = do
    throw_if (not (double.is_finite sample_time_seconds)) invalid_argument
    let seconds = signed_seconds epoch_unix_nanoseconds sample_time_seconds
    throw_if (ltb_ℤ seconds (pos 0) || ltb_ℤ (pos (2 ^ 32 - 1)) seconds) out_of_range
    finish (pos_part seconds) (rounded_picoseconds epoch_unix_nanoseconds sample_time_seconds)
