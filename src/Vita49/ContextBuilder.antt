-- ===== src/Vita49/ContextBuilder.antt =====
-- `Vita49ContextBuilder` of packages/libfers/src/serial/vita49/vita49_context_builder.h and .cpp.
pub mod Flags
use fers.Base.{ℕ, ◌^◌, Bool, ◌&&◌, ◌||◌}
use fers.Base.Text.{Text, lit, text_eq, is_empty}
use fers.Vita49.Types.{
  Timestamp, fers_vrt_iq_class_id, or_if, make_context_state_indicators,
  make_complex_int16_payload_format,
}
use fers.Vita49.Descriptor.{ReceiverStreamDescriptor, ContextPacket}
use fers.Vita49.Serializer.{fers_context_cif0}

unfoldable pub mode_allows_metadata : Text → Text → Bool
mode_allows_metadata receiver_mode metadata_mode =
    is_empty receiver_mode || text_eq receiver_mode metadata_mode

module _ (R : Type 0) where
  pub record ContextBuildRequest : Type 0 where
    pub stream : ReceiverStreamDescriptor R
    pub stream_id : ℕ
    pub simulation_name : Text
    pub adc_fullscale : R
    pub timestamp : Timestamp
    pub packet_count : ℕ
    pub valid_data : Bool
    pub calibrated_time : Bool
    pub reference_lock : Bool
    pub over_range : Bool
    pub sample_loss : Bool
    pub stream_open : Bool
    pub stream_close : Bool

  unfoldable pub build_flags : ContextBuildRequest → ℕ
  build_flags request =
      let s = request.stream in
      let dechirped = or_if s.dechirped (2 ^ 0) 0 in
      let resampled = or_if s.if_resampled (2 ^ 1) dechirped in
      let lossy = or_if request.sample_loss (2 ^ 2) resampled in
      let opened = or_if request.stream_open (2 ^ 3) lossy in
      let closed = or_if request.stream_close (2 ^ 4) opened in
      let fmcw =
        or_if (s.fmcw.present && mode_allows_metadata s.mode (lit "fmcw")) (2 ^ 5) closed in
      let cw = or_if (s.cw.present && mode_allows_metadata s.mode (lit "cw")) (2 ^ 6) fmcw in
      let pulsed =
        or_if (s.pulsed.present && mode_allows_metadata s.mode (lit "pulsed")) (2 ^ 7) cw in
      or_if (s.sfcw.present && mode_allows_metadata s.mode (lit "sfcw")) (2 ^ 8) pulsed

  unfoldable pub build : ContextBuildRequest → ContextPacket R
  unfolding build_flags
  build request = record {
    stream_id = request.stream_id;
    class_id = fers_vrt_iq_class_id;
    timestamp = request.timestamp;
    packet_count = request.packet_count;
    cif0 = fers_context_cif0;
    state_indicators =
        make_context_state_indicators request.valid_data request.calibrated_time
          request.reference_lock request.over_range request.sample_loss;
    payload_format = make_complex_int16_payload_format;
    sample_rate = request.stream.sample_rate;
    reference_frequency = request.stream.reference_frequency;
    if_offset = request.stream.if_offset;
    bandwidth = request.stream.bandwidth;
    adc_fullscale = request.adc_fullscale;
    receiver_id = request.stream.receiver_id;
    adc_bits = request.stream.adc_bits;
    context_flags = build_flags request;
    receiver_name = request.stream.receiver_name;
    simulation_name = request.simulation_name;
    receiver_mode = request.stream.mode;
    coordinate = request.stream.coordinate;
    initial_platform_state = request.stream.initial_platform_state;
    pulsed = request.stream.pulsed;
    cw = request.stream.cw;
    fmcw = request.stream.fmcw;
    sfcw = request.stream.sfcw;
  }
