-- ===== src/Memory.antt =====
-- The memory projection of packages/libfers/src/core/memory_projection.cpp: byte and sample counts in
-- 64 bits that stay at the largest value where they would overflow, and say so.
pub mod Flags
pub mod Exact
use fers.Base.{
  ℕ, ◌+◌, ◌-◌, ◌*◌, ◌/◌, ◌%◌, ◌^◌, max, Bool, true, false, not, ◌&&◌, ◌||◌, List, [], ◌∷◌, Option,
  none, some, Result, ok, err, ◌>>=◌, if◌then◌else◌, leb, ltb, ◌==◌,
}
use fers.Base.Int.{ℤ}
use fers.Floats.{Floats}
use fers.Schedule.{SchedulePeriod, later}
use fers.Simulation.Sources.{earlier, to_count, OperationMode}
use fers.Simulation.Radar.{Receiver, is_pulsed, get_window_start, one, abs}

abbrev pub max_uint64 : ℕ
max_uint64 = 18_446_744_073_709_551_615

-- A count, and whether an operation that led to it overflowed.
pub record ByteProjection : Type 0 where
  pub bytes : ℕ
  pub overflowed : Bool

abbrev pub counted : ℕ → ByteProjection
counted n = record { bytes = n; overflowed = false }

unfoldable pub add_bytes : ByteProjection → ByteProjection → ByteProjection
add_bytes lhs rhs =
    if ltb (max_uint64 - lhs.bytes) rhs.bytes
    then record { bytes = max_uint64; overflowed = true }
    else record { bytes = lhs.bytes + rhs.bytes; overflowed = lhs.overflowed || rhs.overflowed }

unfoldable pub multiply_bytes : ℕ → ℕ → Bool → ByteProjection
multiply_bytes lhs rhs input_overflowed =
    if not (lhs == 0) && ltb (max_uint64 / lhs) rhs
    then record { bytes = max_uint64; overflowed = true }
    else record { bytes = lhs * rhs; overflowed = input_overflowed }

-- `downsampledSampleCount`.
unfoldable pub downsampled_sample_count : ℕ → ℕ → ℕ
downsampled_sample_count ratio samples = if leb ratio 1 then samples else samples / ratio

-- A receiver with its settings of the dechirp and of the intermediate frequency.
pub record ProjectedReceiver (F : Floats) : Type 0 where
  pub receiver : Receiver F
  pub dechirp_enabled : Bool
  pub if_sample_rate : Option F.R

-- `params`, and what is found of the phase noise: the samples of a lookup, the enabled timing sources,
-- and the resident set of the process, where the platform tells it.
pub record Settings (R : Type 0) : Type 0 where
  pub start_time : R
  pub end_time : R
  pub rate : R
  pub oversample_ratio : ℕ
  pub phase_noise_lookup_start : R
  pub enabled_timings : ℕ
  pub resident_set : Option ℕ

-- The counts of `SimulationMemoryProjection` that grow with the receivers.
pub record Totals : Type 0 where
  pub streaming_receiver_count : ℕ
  pub pulsed_receiver_count : ℕ
  pub pulsed_window_count : ℕ
  pub rendered_hdf5_sample_count : ℕ
  pub streaming_iq_buffers : ByteProjection

-- The rest of `SimulationMemoryProjection` that is in bytes.
pub record Projection : Type 0 where
  pub totals : Totals
  pub phase_noise_lookup : ByteProjection
  pub rendered_hdf5_payload : ByteProjection
  pub projected_total_footprint : Option ByteProjection

module _ (F : Floats) where
  open F use {R, double}

  abbrev zero_time : R
  zero_time = double.of_ℕ 0

  -- `ceilToUint64`.
  unfoldable pub ceil_to_uint64 : R → ByteProjection
  ceil_to_uint64 value =
      let nearest = double.round value in
      let tolerance =
        double.mul (double.div (one F) (double.of_ℕ (10 ^ 12))) (later F (one F) (abs F nearest)) in
      if not (double.is_finite value)
      then record { bytes = max_uint64; overflowed = true }
      else if double.le value zero_time
      then counted 0
      else if double.le (double.of_ℕ max_uint64) value
      then record { bytes = max_uint64; overflowed = true }
      else if double.le (abs F (double.sub value nearest)) tolerance
      then counted (to_count F (double.to_ℤ nearest))
      else counted (to_count F (double.to_ℤ (double.ceil value)))

  -- `countSamplesForDuration`.
  unfoldable pub count_samples_for_duration : R → R → ByteProjection
  count_samples_for_duration duration rate = ceil_to_uint64 (double.mul duration rate)

  -- `countStartsInRange`.
  unfoldable pub count_starts_in_range : R → R → R → ByteProjection
  count_starts_in_range first last step =
      if double.lt last first || double.le step zero_time || not (double.is_finite step)
      then counted 0
      else ceil_to_uint64
          (double.add (double.floor (double.div (double.sub last first) step)) (one F))

  -- The loop of `countPulsedWindows` over the schedule, with its variables.
  unfoldable pub count_in_periods :
      R → R → R → Bool → ByteProjection → List (SchedulePeriod F) → ByteProjection
  count_in_periods sim_end step requested any total [] = total
  count_in_periods sim_end step requested any total (p ∷ periods) =
      let period_end = earlier F p.end sim_end in
      let first = later F requested p.start in
      let count = count_starts_in_range first period_end step in
      let flagged = record total { overflowed = total.overflowed || count.overflowed } in
      let skipped = count_in_periods sim_end step requested any total periods in
      let empty = count_in_periods sim_end step requested any flagged periods in
      let next =
        count_in_periods sim_end step (double.add first (double.mul (double.of_ℕ count.bytes) step))
          true (add_bytes flagged (counted count.bytes)) periods in
      if double.lt period_end p.start || double.lt period_end requested
      then skipped
      else if not any && double.le sim_end first
      then total
      else if count.bytes == 0
      then empty
      else next

  unfoldable pub count_from : R → R → R → List (SchedulePeriod F) → ByteProjection
  count_from sim_end step first [] =
      if double.le sim_end first then counted 0 else count_starts_in_range first sim_end step
  count_from sim_end step first (p ∷ periods) =
      count_in_periods sim_end step first false (counted 0) (p ∷ periods)

  -- `countPulsedWindows`.
  unfoldable pub count_pulsed_windows : R → Receiver F → Result ByteProjection
  count_pulsed_windows sim_end rx =
      if double.le rx.window_prf zero_time || not (double.is_finite rx.window_prf)
      then ok (counted 0)
      else (do
        first ← get_window_start F rx 0
        ok (count_from sim_end (double.div (one F) rx.window_prf) first rx.schedule))

  module _ (settings : Settings R) where
    open settings use {
      start_time, end_time, rate, oversample_ratio, phase_noise_lookup_start, enabled_timings,
      resident_set,
    }

    abbrev pub simulation_sample_rate : R
    simulation_sample_rate = double.mul rate (double.of_ℕ oversample_ratio)

    abbrev pub duration : R
    duration = later F zero_time (double.sub end_time start_time)

    abbrev pub streaming_samples : ByteProjection
    streaming_samples = count_samples_for_duration duration simulation_sample_rate

    -- The samples that a streaming receiver keeps, and those that it writes.
    unfoldable pub resident_samples : ProjectedReceiver F → ByteProjection
    resident_samples r =
        if not r.dechirp_enabled then streaming_samples else elim r.if_sample_rate [
          | none ↦ streaming_samples
          | some if_rate ↦
              (let count = count_samples_for_duration duration if_rate in
                record count { overflowed = streaming_samples.overflowed || count.overflowed })
        ]

    unfoldable pub rendered_samples : ProjectedReceiver F → ByteProjection
    rendered_samples r =
        let resident = resident_samples r in
        if r.dechirp_enabled
        then resident
        else record resident { bytes = downsampled_sample_count oversample_ratio resident.bytes }

    -- `addStreamingReceiverProjection`.
    unfoldable pub add_streaming_receiver : ProjectedReceiver F → Totals → Totals
    add_streaming_receiver r totals = record totals {
      streaming_receiver_count = totals.streaming_receiver_count + 1;
      rendered_hdf5_sample_count =
          (add_bytes (counted totals.rendered_hdf5_sample_count) (rendered_samples r)).bytes;
      streaming_iq_buffers =
          add_bytes totals.streaming_iq_buffers
            (multiply_bytes (resident_samples r).bytes 16 (resident_samples r).overflowed);
    }

    abbrev pub window_samples : Receiver F → ByteProjection
    window_samples rx = count_samples_for_duration rx.window_length simulation_sample_rate

    -- The samples of all windows of a pulsed receiver.
    unfoldable pub pulsed_samples : Receiver F → ByteProjection → ByteProjection
    pulsed_samples rx windows =
        multiply_bytes windows.bytes
          (downsampled_sample_count oversample_ratio (window_samples rx).bytes)
          (windows.overflowed || (window_samples rx).overflowed)

    -- `addPulsedReceiverProjection`, with the windows that are counted.
    unfoldable pub add_pulsed_receiver : Receiver F → ByteProjection → Totals → Totals
    add_pulsed_receiver rx windows totals = record totals {
      pulsed_receiver_count = totals.pulsed_receiver_count + 1;
      pulsed_window_count = (add_bytes (counted totals.pulsed_window_count) windows).bytes;
      rendered_hdf5_sample_count =
          (add_bytes (counted totals.rendered_hdf5_sample_count) (pulsed_samples rx windows)).bytes;
    }

    unfoldable pub add_receiver : ProjectedReceiver F → Totals → Result Totals
    add_receiver r totals =
        if is_pulsed r.receiver.mode
        then (do
          windows ← count_pulsed_windows end_time r.receiver
          ok (add_pulsed_receiver r.receiver windows totals))
        else ok (add_streaming_receiver r totals)

    unfoldable pub add_receivers : List (ProjectedReceiver F) → Totals → Result Totals
    add_receivers [] totals = ok totals
    add_receivers (r ∷ receivers) totals = do
      next ← add_receiver r totals
      add_receivers receivers next

    abbrev pub no_totals : Totals
    no_totals = record {
      streaming_receiver_count = 0;
      pulsed_receiver_count = 0;
      pulsed_window_count = 0;
      rendered_hdf5_sample_count = 0;
      streaming_iq_buffers = counted 0;
    }

    -- The samples of a phase-noise lookup: one more than the count, where that fits.
    unfoldable pub phase_noise_samples : ℕ
    phase_noise_samples =
        let count =
          count_samples_for_duration
            (later F zero_time (double.sub end_time phase_noise_lookup_start))
            simulation_sample_rate in
        if count.overflowed
        then max_uint64
        else if count.bytes == max_uint64
        then count.bytes
        else count.bytes + 1

    abbrev pub phase_noise_lookup : ByteProjection
    phase_noise_lookup =
        multiply_bytes phase_noise_samples (enabled_timings * 8 % 2 ^ 64)
          streaming_samples.overflowed

    unfoldable pub with_footprint : Totals → Projection
    with_footprint totals =
        let payload = multiply_bytes totals.rendered_hdf5_sample_count 16 false in
        record {
          totals = totals;
          phase_noise_lookup = phase_noise_lookup;
          rendered_hdf5_payload = payload;
          projected_total_footprint = elim resident_set [
            | none ↦ none
            | some baseline ↦ some (
                add_bytes
                  (add_bytes (add_bytes phase_noise_lookup totals.streaming_iq_buffers) payload)
                  (counted baseline))
          ];
        }

    -- `projectSimulationMemory`.
    unfoldable pub project_simulation_memory : List (ProjectedReceiver F) → Result Projection
    project_simulation_memory receivers = do
      totals ← add_receivers receivers no_totals
      ok (with_footprint totals)
