-- ===== src/Simulation/Radar.antt =====
-- The schedules of packages/libfers/src/radar/transmitter.cpp and receiver.cpp: when the next pulse
-- is sent and when the next window opens. The timing source of a receiver only decides whether
-- `getWindowStart` throws.
pub mod Next
pub mod Resampling
use fers.Base.{
  ℕ, Bool, true, ◌&&◌, ◌||◌, List, [], ◌∷◌, Option, none, some, Result, ok, ◌>>◌, throw_if,
  logic_error, if◌then◌else◌, not, ◌==◌,
}
use fers.Floats.{Floats}
use fers.Schedule.{SchedulePeriod}
use fers.Simulation.Sources.{OperationMode, pulsed_mode, Transmitter}

pub record Receiver (F : Floats) : Type 0 where
  pub mode : OperationMode
  pub window_length : F.R
  pub window_prf : F.R
  pub window_skip : F.R
  pub has_timing : Bool
  pub schedule : List (SchedulePeriod F)

unfoldable pub is_pulsed : OperationMode → Bool
is_pulsed pulsed_mode = true
is_pulsed _ = Bool.false

module _ (F : Floats) where
  open F use {R, double}

  abbrev pub one : R
  one = double.of_ℕ 1

  unfoldable pub abs : R → R
  abs x = if double.lt x (double.of_ℕ 0) then double.neg x else x

  unfoldable pub next_active_time : R → List (SchedulePeriod F) → Option R
  next_active_time time [] = none
  next_active_time time (p ∷ periods) =
      let rest = next_active_time time periods in
      if double.le p.start time && double.le time p.end
      then some time
      else if double.lt time p.start
      then some p.start
      else rest

  unfoldable pub next_scheduled_time : R → List (SchedulePeriod F) → Option R
  next_scheduled_time time [] = some time
  next_scheduled_time time (p ∷ periods) = next_active_time time (p ∷ periods)

  unfoldable pub get_next_pulse_time : Transmitter F → R → Option R
  get_next_pulse_time tx time = next_scheduled_time time tx.schedule

  unfoldable pub get_next_window_time : Receiver F → R → Option R
  get_next_window_time rx time = next_scheduled_time time rx.schedule

  unfoldable pub get_window_start : Receiver F → ℕ → Result R
  get_window_start rx window = do
    throw_if (not rx.has_timing) logic_error
    ok (double.add (double.div (double.of_ℕ window) rx.window_prf) rx.window_skip)
