-- ===== src/Vita49/Descriptor.antt =====
-- `core::ReceiverStreamDescriptor` of packages/libfers/src/core/receiver_output.h, and
-- `ContextPacket` of packages/libfers/src/serial/vita49/vita49_types.h, which carries its parts.
use fers.Base.{ℕ, Bool, Option}
use fers.Base.Int.{ℤ}
use fers.Base.Text.{Text}
use fers.Vita49.Types.{Timestamp}

module _ (R : Type 0) where
  pub record CoordinateContext : Type 0 where
    pub frame : Text
    pub origin_latitude : R
    pub origin_longitude : R
    pub origin_altitude : R
    pub utm_zone : ℤ
    pub utm_north_hemisphere : Bool

  pub record PlatformState : Type 0 where
    pub platform_id : ℕ
    pub platform_name : Text
    pub position_x : R
    pub position_y : R
    pub position_z : R
    pub velocity_x : R
    pub velocity_y : R
    pub velocity_z : R
    pub azimuth : R
    pub elevation : R

  pub record FmcwContext : Type 0 where
    pub present : Bool
    pub waveform_shape : Text
    pub chirp_bandwidth : R
    pub chirp_duration : R
    pub chirp_period : R
    pub chirp_rate : R
    pub chirp_rate_signed : R
    pub sweep_direction : Text
    pub start_frequency_offset : R
    pub triangle_period : Option R
    pub chirp_count : Option ℕ
    pub triangle_count : Option ℕ
    pub sampled_duration : Option R
    pub sampled_count : Option ℕ
    pub dechirp_mode : Text
    pub dechirp_reference_source : Text
    pub dechirp_reference_transmitter_id : ℕ
    pub dechirp_reference_transmitter_name : Text
    pub dechirp_reference_waveform_id : ℕ
    pub dechirp_reference_waveform_name : Text

  pub record PulsedContext : Type 0 where
    pub present : Bool
    pub window_length : R
    pub window_prf : R
    pub window_skip : R
    pub window_count : ℕ
    pub waveform_id : ℕ
    pub waveform_name : Text
    pub carrier_frequency : R
    pub power : R
    pub pulse_width : R
    pub native_sample_rate : R
    pub native_sample_count : ℕ

  pub record CwContext : Type 0 where
    pub present : Bool
    pub waveform_id : ℕ
    pub waveform_name : Text
    pub carrier_frequency : R
    pub power : R

  pub record SfcwContext : Type 0 where
    pub present : Bool
    pub waveform_id : ℕ
    pub waveform_name : Text
    pub carrier_frequency : R
    pub power : R
    pub start_frequency_offset : R
    pub step_size : R
    pub step_count : ℕ
    pub dwell_time : R
    pub step_period : R
    pub sweep_period : R
    pub sweep_count : Option ℕ
    pub first_frequency : R
    pub last_frequency : R
    pub frequency_span : R
    pub effective_bandwidth : R
    pub range_resolution : R
    pub unambiguous_range : R

  pub record ReceiverStreamDescriptor : Type 0 where
    pub receiver_id : ℕ
    pub receiver_name : Text
    pub mode : Text
    pub sample_rate : R
    pub reference_frequency : R
    pub if_offset : R
    pub bandwidth : R
    pub dechirped : Bool
    pub if_resampled : Bool
    pub adc_bits : ℕ
    pub coordinate : CoordinateContext
    pub initial_platform_state : PlatformState
    pub pulsed : PulsedContext
    pub cw : CwContext
    pub fmcw : FmcwContext
    pub sfcw : SfcwContext

  pub record ContextPacket : Type 0 where
    pub stream_id : ℕ
    pub class_id : ℕ
    pub timestamp : Timestamp
    pub packet_count : ℕ
    pub cif0 : ℕ
    pub state_indicators : ℕ
    pub payload_format : ℕ
    pub sample_rate : R
    pub reference_frequency : R
    pub if_offset : R
    pub bandwidth : R
    pub adc_fullscale : R
    pub receiver_id : ℕ
    pub adc_bits : ℕ
    pub context_flags : ℕ
    pub receiver_name : Text
    pub simulation_name : Text
    pub receiver_mode : Text
    pub coordinate : CoordinateContext
    pub initial_platform_state : PlatformState
    pub pulsed : PulsedContext
    pub cw : CwContext
    pub fmcw : FmcwContext
    pub sfcw : SfcwContext
