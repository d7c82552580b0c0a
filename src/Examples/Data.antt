-- ===== src/Examples/Data.antt =====
-- The inputs of the examples: a stream of a receiver, and a block of its samples.
use fers.Base.{ℕ, ◌*◌, true, false, [], ◌∷◌, none}
use fers.Base.Int.{pos}
use fers.Base.Text.{lit}
use fers.Vita49.Types.{Timestamp}
use fers.Vita49.Descriptor.{ReceiverStreamDescriptor}
use fers.Vita49.ContextBuilder.{ContextBuildRequest}
use fers.Vita49.Packetizer.{ReceiverSampleBlock, SerializedPacket}
use fers.Examples.Fixed.{unit}

abbrev pub noon : Timestamp
noon = record { integer_seconds = 43_200; fractional_picoseconds = 500_000_000_000 }

-- A continuous-wave receiver at one sample a second.
abbrev pub stream : ReceiverStreamDescriptor ℕ
stream = record {
  receiver_id = 7;
  receiver_name = lit "north";
  mode = lit "cw";
  sample_rate = unit;
  reference_frequency = 0;
  if_offset = 0;
  bandwidth = unit;
  dechirped = false;
  if_resampled = true;
  adc_bits = 16;
  coordinate = record {
    frame = lit "ENU";
    origin_latitude = 0;
    origin_longitude = 0;
    origin_altitude = 0;
    utm_zone = pos 34;
    utm_north_hemisphere = false;
  };
  initial_platform_state = record {
    platform_id = 3;
    platform_name = lit "mast";
    position_x = 0;
    position_y = 0;
    position_z = unit;
    velocity_x = 0;
    velocity_y = 0;
    velocity_z = 0;
    azimuth = 0;
    elevation = 0;
  };
  pulsed = record {
    present = false;
    window_length = 0;
    window_prf = 0;
    window_skip = 0;
    window_count = 0;
    waveform_id = 0;
    waveform_name = [];
    carrier_frequency = 0;
    power = 0;
    pulse_width = 0;
    native_sample_rate = 0;
    native_sample_count = 0;
  };
  cw = record {
    present = true;
    waveform_id = 5;
    waveform_name = lit "tone";
    carrier_frequency = unit;
    power = unit;
  };
  fmcw = record {
    present = false;
    waveform_shape = [];
    chirp_bandwidth = 0;
    chirp_duration = 0;
    chirp_period = 0;
    chirp_rate = 0;
    chirp_rate_signed = 0;
    sweep_direction = [];
    start_frequency_offset = 0;
    triangle_period = none;
    chirp_count = none;
    triangle_count = none;
    sampled_duration = none;
    sampled_count = none;
    dechirp_mode = [];
    dechirp_reference_source = [];
    dechirp_reference_transmitter_id = 0;
    dechirp_reference_transmitter_name = [];
    dechirp_reference_waveform_id = 0;
    dechirp_reference_waveform_name = [];
  };
  sfcw = record {
    present = false;
    waveform_id = 0;
    waveform_name = [];
    carrier_frequency = 0;
    power = 0;
    start_frequency_offset = 0;
    step_size = 0;
    step_count = 0;
    dwell_time = 0;
    step_period = 0;
    sweep_period = 0;
    sweep_count = none;
    first_frequency = 0;
    last_frequency = 0;
    frequency_span = 0;
    effective_bandwidth = 0;
    range_resolution = 0;
    unambiguous_range = 0;
  };
}

-- Three samples, the second beyond the full-scale of 2, from the time 10 s on.
abbrev pub block : ReceiverSampleBlock ℕ
block = record {
  stream = stream;
  first_sample_time = 10_000_000_000;
  sample_rate = unit;
  samples = (unit, 1) ∷ (5_000_000_000, unit) ∷ (1, 500_000_000) ∷ [];
  sample_start = 0;
  valid_data = true;
  calibrated_time = true;
  reference_lock = true;
}

abbrev pub request : ContextBuildRequest ℕ
request = record {
  stream = stream;
  stream_id = 99;
  simulation_name = lit "trial";
  adc_fullscale = unit;
  timestamp = noon;
  packet_count = 20;
  valid_data = true;
  calibrated_time = true;
  reference_lock = false;
  over_range = true;
  sample_loss = false;
  stream_open = true;
  stream_close = false;
}

-- A data packet that is due at a time in seconds.
abbrev pub datagram : ℕ → SerializedPacket ℕ
datagram seconds = record {
  bytes = b'F' ∷ seconds ∷ [];
  stream_id = 99;
  sample_count = 4;
  first_sample_time = seconds * unit;
  data_packet = true;
  context_packet = false;
  over_range = false;
  sample_loss = false;
  timestamp = noon;
}
