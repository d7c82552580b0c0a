-- ===== src/Vita49/Serializer.antt =====
-- `Vita49Serializer` of packages/libfers/src/serial/vita49/vita49_serializer.h and .cpp: signal data
-- and context packets as bytes. Byte counts are taken to fit `std::size_t`.
pub mod Layout
pub mod Signal
pub mod Fullscale
pub mod Context
use fers.Base.{
  ℕ, suc, ◌+◌, ◌*◌, ◌%◌, ◌^◌, bit_or, Bool, true, false, not, ◌||◌, List, [], ◌∷◌, Result, ok, err,
  ◌>>=◌, ◌>>◌, throw_if, invalid_argument, logic_error, ltb, ◌==◌, if◌then◌else◌, length,
}
use fers.Base.Int.{ℤ, pos, negsuc}
use fers.Base.Text.{Text}
use fers.Floats.{Floats}
use fers.Vita49.Types.{
  Timestamp, SignalDataPacket, signal_data_fixed_bytes, signal_data_with_stream_id, context, utc,
  real_time_picoseconds, make_header, make_trailer,
}
use fers.Vita49.Writer.{
  ByteWriter, new_writer, write_i16, write_u32, write_u64, write_f64, write_bytes,
  write_ascii_metadata, checked_word_count,
}
use fers.Vita49.Descriptor.{ContextPacket}
use fers.Vita49.Metadata.{Json, make_context_metadata_json}

-- The five words that start a packet of either type.
unfoldable pub write_prologue : ℕ → ℕ → ℕ → Timestamp → ByteWriter → ByteWriter
write_prologue header stream_id class_id timestamp w = write_u64 timestamp.fractional_picoseconds (
    write_u32 timestamp.integer_seconds
      (write_u64 class_id (write_u32 stream_id (write_u32 header w))))

unfoldable pub write_items : List ℤ → ByteWriter → ByteWriter
write_items [] w = w
write_items (item ∷ items) w = write_items items (write_i16 item w)

unfoldable pub serialize_signal_data : SignalDataPacket → Result (List ℕ)
serialize_signal_data packet = do
  throw_if (not (length packet.iq_interleaved % 2 == 0)) invalid_argument
  let byte_count = signal_data_fixed_bytes + length packet.iq_interleaved * 2
  packet_size_words ← checked_word_count byte_count
  let header =
      make_header signal_data_with_stream_id true true utc real_time_picoseconds packet.packet_count
        packet_size_words
  let prologue = write_prologue header packet.stream_id packet.class_id packet.timestamp new_writer
  let writer = write_u32 packet.trailer (write_items packet.iq_interleaved prologue)
  throw_if (not (length writer.bytes == byte_count)) logic_error
  ok writer.bytes

-- The bits of `ContextIndicator0` that a FERS context packet has.
abbrev pub fers_context_cif0 : ℕ
fers_context_cif0 = 2 ^ 31 + 2 ^ 30 + 2 ^ 29 + 2 ^ 28 + 2 ^ 27 + 2 ^ 26 + 2 ^ 25 + 2 ^ 24 + 2 ^ 23

pub record SignalDataSerializationResult : Type 0 where
  pub bytes : List ℕ
  pub clipped_sample_count : ℕ

module _ (F : Floats) where
  open F use {R, double}

  unfoldable pub scaled_component : R → R → R
  scaled_component value fullscale =
      double.round (double.mul (double.div value fullscale) (double.of_ℕ 32767))

  -- `std::clamp` to the range of a 16-bit integer.
  unfoldable pub clamp_int16 : R → R
  clamp_int16 x =
      if double.lt x (double.neg (double.of_ℕ 32768))
      then double.neg (double.of_ℕ 32768)
      else if double.lt (double.of_ℕ 32767) x
      then double.of_ℕ 32767
      else x

  -- A scaled component, and `clipped` as the call leaves it.
  unfoldable pub scale_component_to_int16 : R → R → Bool → ℤ × Bool
  unfolding scaled_component clamp_int16
  scale_component_to_int16 value fullscale clipped =
      if double.lt fullscale value
      then (pos 32767, true)
      else if double.lt value (double.neg fullscale)
      then (negsuc 32767, true)
      else if double.eq value fullscale
      then (pos 32767, clipped)
      else if double.eq value (double.neg fullscale)
      then (negsuc 32767, clipped)
      else (double.to_ℤ (clamp_int16 (scaled_component value fullscale)), clipped)

  pub record FixedFullscaleSignalDataPacket : Type 0 where
    pub stream_id : ℕ
    pub class_id : ℕ
    pub timestamp : Timestamp
    pub packet_count : ℕ
    pub valid_data : Bool
    pub calibrated_time : Bool
    pub reference_lock : Bool
    pub sample_loss : Bool
    pub samples : List (R × R)
    pub fullscale : R

  -- One sample: both components, and whether either was clipped.
  unfoldable pub scale_sample : R → R × R → ℤ × ℤ × Bool
  scale_sample fullscale sample =
      let (re, clipped) = scale_component_to_int16 sample.0 fullscale false in
      let (im, clipped') = scale_component_to_int16 sample.1 fullscale clipped in (re, im, clipped')

  -- The loop over the samples, with the count of clipped ones so far.
  unfoldable pub write_samples : R → List (R × R) → ByteWriter → ℕ → ByteWriter × ℕ
  write_samples fullscale [] w clipped_count = (w, clipped_count)
  write_samples fullscale (sample ∷ samples) w clipped_count =
      let (re, im, clipped) = scale_sample fullscale sample in
      write_samples fullscale samples (write_i16 im (write_i16 re w))
        (if clipped then suc clipped_count else clipped_count)

  unfoldable pub serialize_signal_data_fixed_fullscale :
      FixedFullscaleSignalDataPacket → Result SignalDataSerializationResult
  serialize_signal_data_fixed_fullscale packet = do
    throw_if (not (double.is_finite packet.fullscale) || double.le packet.fullscale (double.of_ℕ 0))
        invalid_argument
    let byte_count = signal_data_fixed_bytes + length packet.samples * 2 * 2
    packet_size_words ← checked_word_count byte_count
    let header =
        make_header signal_data_with_stream_id true true utc real_time_picoseconds
          packet.packet_count packet_size_words
    let prologue =
        write_prologue header packet.stream_id packet.class_id packet.timestamp new_writer
    let (written, clipped_sample_count) = write_samples packet.fullscale packet.samples prologue 0
    let trailer =
        make_trailer packet.valid_data packet.calibrated_time packet.reference_lock
          (ltb 0 clipped_sample_count) packet.sample_loss
    let writer = write_u32 trailer written
    throw_if (not (length writer.bytes == byte_count)) logic_error
    ok (record { bytes = writer.bytes; clipped_sample_count = clipped_sample_count })

  -- `dump` is `nlohmann::json::dump(-1, ' ', true)`, which throws on text that is not UTF-8.
  module _ (dump : Json R → Result Text) where
    -- The body of a context packet up to the metadata.
    unfoldable pub write_context_fields : ContextPacket R → ByteWriter
    write_context_fields packet =
        let states = write_u32 packet.state_indicators (write_u32 packet.cif0 new_writer) in
        let format = write_u64 packet.payload_format states in
        let rate = write_f64 F packet.sample_rate format in
        let reference = write_f64 F packet.reference_frequency rate in
        let offset = write_f64 F packet.if_offset reference in
        let band = write_f64 F packet.bandwidth offset in
        write_u64 packet.receiver_id (write_f64 F packet.adc_fullscale band)

    unfoldable pub serialize_context : ContextPacket R → Result (List ℕ)
    serialize_context packet = do
      throw_if (not (packet.cif0 == fers_context_cif0)) invalid_argument
      metadata ← dump (make_context_metadata_json F packet)
      payload ← write_ascii_metadata metadata (write_context_fields packet)
      let byte_count = 4 + 4 + 8 + 4 + 8 + length payload.bytes
      packet_size_words ← checked_word_count byte_count
      let header =
          make_header context true false utc real_time_picoseconds packet.packet_count
            packet_size_words
      let prologue =
          write_prologue header packet.stream_id packet.class_id packet.timestamp new_writer
      ok (write_bytes payload.bytes prologue).bytes
