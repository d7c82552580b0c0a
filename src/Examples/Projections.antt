-- ===== src/Examples/Projections.antt =====
-- The memory projection of a run of two time units with a streaming and a pulsed receiver.
use fers.Base.{ℕ, ◌*◌, ◌≡◌, refl, false, none, some, ok, List, [], ◌∷◌, arith}
use fers.Memory.{
  Settings, ProjectedReceiver, Totals, add_bytes, multiply_bytes, downsampled_sample_count,
  ceil_to_uint64, count_samples_for_duration, count_starts_in_range, count_from,
  count_pulsed_windows, resident_samples, rendered_samples, add_streaming_receiver, pulsed_samples,
  add_pulsed_receiver, add_receiver, add_receivers, with_footprint, project_simulation_memory,
  counted,
}
use fers.Memory.Flags.{Unclamped}
use fers.Memory.Exact.{Footprint, exact_footprint, project_simulation_memory-Represents}
use fers.Simulation.Radar.{is_pulsed, get_window_start, abs}
use fers.Schedule.{later}
use fers.Simulation.Sources.{to_count}
use fers.Examples.Fixed.{unit, numbers}
use fers.Examples.Engines.{pulsed_receiver}
use fers.Examples.Receivers.{listener}

abbrev settings : Settings ℕ
settings = record {
  start_time = 0;
  end_time = 2 * unit;
  rate = 2 * unit;
  oversample_ratio = 1;
  phase_noise_lookup_start = 0;
  enabled_timings = 3;
  resident_set = some 1000;
}

abbrev projected : List (ProjectedReceiver numbers)
projected =
    record { receiver = listener; dechirp_enabled = false; if_sample_rate = none }
    ∷ record { receiver = pulsed_receiver; dechirp_enabled = false; if_sample_rate = none }
    ∷ []

-- Four samples are kept, and four and two windows of two samples are written.
abbrev totals : Totals
totals = record {
  streaming_receiver_count = 1;
  pulsed_receiver_count = 1;
  pulsed_window_count = 2;
  rendered_hdf5_sample_count = 8;
  streaming_iq_buffers = counted 64;
}

projects :
    project_simulation_memory numbers settings projected
    ≡ ok (with_footprint numbers settings totals)
unfolding project_simulation_memory add_receivers add_receiver add_streaming_receiver
    add_pulsed_receiver pulsed_samples rendered_samples resident_samples count_pulsed_windows
    count_from count_starts_in_range count_samples_for_duration ceil_to_uint64 abs
    downsampled_sample_count add_bytes multiply_bytes is_pulsed get_window_start later to_count
projects = refl

project_simulation_memory-Represents_example :
    Footprint numbers settings
      (exact_footprint numbers settings projected 1000)
      (Unclamped numbers settings projected)
      (with_footprint numbers settings totals)
project_simulation_memory-Represents_example =
    project_simulation_memory-Represents numbers settings projected
      (with_footprint numbers settings totals) 1000 projects refl (omega arith)
