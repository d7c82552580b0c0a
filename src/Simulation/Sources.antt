-- ===== src/Simulation/Sources.antt =====
-- `makeActiveSource` of packages/libfers/src/core/simulation_state.cpp: the segment in which a
-- streaming transmitter emits. Of the waveform and of the cached source only what decides the end of
-- the segment is kept; the warnings are left out.
use fers.Base.{ℕ, ◌^◌, Bool, not, List, Option, none, some, if◌then◌else◌, min}
use fers.Base.Int.{ℤ, pos, negsuc}
use fers.Floats.{Floats}
use fers.Schedule.{SchedulePeriod, later}

pub data OperationMode : Type 0 where
  pulsed_mode cw_mode fmcw_mode sfcw_mode : OperationMode

pub data StreamingWaveformKind : Type 0 where
  cw fmcw_linear fmcw_triangle sfcw file_cw file_fmcw : StreamingWaveformKind

-- The waveform of a `RadarSignal`: with a chirp its period and count, with a stepped sweep its total
-- duration, with a triangle its period and count, with a file its duration and `isFmcw`.
pub data Waveform (R : Type 0) : Type 0 where
  plain_wave : Waveform R
  chirp_wave : R → Option ℕ → Waveform R
  sfcw_wave : Option R → Waveform R
  triangle_wave : R → Option ℕ → Waveform R
  file_wave : R → Bool → Waveform R

-- `_signal` is `none` where the pointer is null.
pub record Transmitter (F : Floats) : Type 0 where
  pub mode : OperationMode
  pub prf : F.R
  pub signal : Option (Waveform F.R)
  pub schedule : List (SchedulePeriod F)

-- `transmitter` is the address of the object.
pub record ActiveStreamingSource (R : Type 0) : Type 0 where
  pub transmitter : ℕ
  pub segment_start : R
  pub segment_end : R
  pub kind : StreamingWaveformKind

module _ (F : Floats) where
  open F use {R, double}

  -- `std::min(a, b)`.
  unfoldable pub earlier : R → R → R
  earlier a b = if double.lt b a then b else a

  -- A cast of a count to `size_t`.
  unfoldable pub to_count : ℤ → ℕ
  to_count (pos n) = n
  to_count (negsuc n) = 0

  -- `1.0e-12`.
  abbrev pub waveform_boundary_index_tolerance : R
  waveform_boundary_index_tolerance = double.div (double.of_ℕ 1) (double.of_ℕ (10 ^ 12))

  -- `segment_start + static_cast<RealType>(count) * period`.
  abbrev pub after_periods : R → ℕ → R → R
  after_periods start count period = double.add start (double.mul (double.of_ℕ count) period)

  -- `std::min(count, limit)` where there is a limit.
  unfoldable pub limited : ℕ → Option ℕ → ℕ
  limited count none = count
  limited count (some limit) = min count limit

  unfoldable pub triangle_end : R → R → R → Option ℕ → R
  triangle_end start end period count =
      let raw_duration = later F (double.of_ℕ 0) (double.sub end start) in
      if not (double.is_finite raw_duration)
      then elim count [ some n ↦ after_periods start n period | none ↦ end ]
      else (let full_by_duration = to_count (
            double.to_ℤ (
              double.floor
                (double.add (double.div raw_duration period) waveform_boundary_index_tolerance))) in
          after_periods start (limited full_by_duration count) period)

  -- `populateWaveformCache`, its end of the segment and the kind.
  unfoldable pub populate_waveform_cache :
      Waveform R → R → ActiveStreamingSource R → ActiveStreamingSource R
  populate_waveform_cache plain_wave start source = source
  populate_waveform_cache (chirp_wave period none) start source = record source {
    kind = fmcw_linear;
  }
  populate_waveform_cache (chirp_wave period (some n)) start source = record source {
    kind = fmcw_linear;
    segment_end = earlier source.segment_end (after_periods start n period);
  }
  populate_waveform_cache (sfcw_wave none) start source = record source { kind = sfcw }
  populate_waveform_cache (sfcw_wave (some duration)) start source = record source {
    kind = sfcw;
    segment_end = earlier source.segment_end (double.add start duration);
  }
  populate_waveform_cache (triangle_wave period count) start source = record source {
    kind = fmcw_triangle;
    segment_end = triangle_end start source.segment_end period count;
  }
  populate_waveform_cache (file_wave duration is_fmcw) start source = record source {
    kind = if is_fmcw then file_fmcw else file_cw;
    segment_end = earlier source.segment_end (double.add start duration);
  }

  -- `makeActiveSource` for the transmitter at an address.
  unfoldable pub make_active_source : ℕ → Transmitter F → R → R → ActiveStreamingSource R
  make_active_source address tx start end =
      let source : ActiveStreamingSource R = record {
        transmitter = address;
        segment_start = start;
        segment_end = end;
        kind = cw;
      } in
      elim tx.signal [ none ↦ source | some wave ↦ populate_waveform_cache wave start source ]
