-- ===== src/Vita49/Packetizer.antt =====
-- `Vita49Packetizer` of packages/libfers/src/serial/vita49/vita49_packetizer.h and .cpp: a block of
-- samples becomes datagrams of bounded size. `SerializedPacket` and `PacketizerResult` are those of
-- vita49_types.h, `ReceiverSampleBlock` that of core/receiver_output.h (without `file_metadata`,
-- which only the HDF5 output reads).
pub mod Blocks
pub mod Coverage
use fers.Base.{
  ℕ, zero, suc, ◌+◌, ◌-◌, ◌^◌, min, bit_and, Bool, true, false, not, ◌&&◌, ◌||◌, List, [], ◌∷◌,
  ◌++◌, Result, ok, err, ◌>>=◌, ◌>>◌, throw_if, invalid_argument, logic_error, ltb, ◌==◌,
  if◌then◌else◌, length, take, drop,
}
use fers.Base.Bits.{bit}
use fers.Base.Text.{Text, is_empty}
use fers.Floats.{Floats}
use fers.Vita49.Types.{
  Timestamp, PacketCountSequencer, next, fers_vrt_iq_class_id,
  max_complex_samples_per_signal_packet,
}
use fers.Vita49.Timestamp.{timestamp_from_epoch}
use fers.Vita49.Descriptor.{ReceiverStreamDescriptor, ContextPacket}
use fers.Vita49.Metadata.{Json}
use fers.Vita49.Serializer.{
  FixedFullscaleSignalDataPacket, serialize_signal_data_fixed_fullscale, serialize_context,
}

pub record SerializedPacket (R : Type 0) : Type 0 where
  pub bytes : List ℕ
  pub stream_id : ℕ
  pub sample_count : ℕ
  pub first_sample_time : R
  pub data_packet : Bool
  pub context_packet : Bool
  pub over_range : Bool
  pub sample_loss : Bool
  pub timestamp : Timestamp

pub record PacketizerResult (R : Type 0) : Type 0 where
  pub packets : List (SerializedPacket R)
  pub samples_emitted : ℕ
  pub over_range_count : ℕ

pub record ReceiverSampleBlock (R : Type 0) : Type 0 where
  pub stream : ReceiverStreamDescriptor R
  pub first_sample_time : R
  pub sample_rate : R
  pub samples : List (R × R)
  pub sample_start : ℕ
  pub valid_data : Bool
  pub calibrated_time : Bool
  pub reference_lock : Bool

pub record Vita49Packetizer (R : Type 0) : Type 0 where
  pub epoch_unix_nanoseconds : ℕ
  pub adc_fullscale : R
  pub max_udp_payload_bytes : ℕ
  pub max_complex_samples_per_packet : ℕ

module _ (F : Floats) where
  open F use {R, double}

  -- The constructor. The capacity is computed, and may throw, before the full-scale is looked at.
  unfoldable pub new_packetizer : ℕ → R → ℕ → Result (Vita49Packetizer R)
  new_packetizer epoch_unix_nanoseconds adc_fullscale max_udp_payload_bytes = do
    capacity ← max_complex_samples_per_signal_packet max_udp_payload_bytes
    throw_if (not (double.is_finite adc_fullscale) || double.le adc_fullscale (double.of_ℕ 0))
        invalid_argument
    ok (record {
      epoch_unix_nanoseconds = epoch_unix_nanoseconds;
      adc_fullscale = adc_fullscale;
      max_udp_payload_bytes = max_udp_payload_bytes;
      max_complex_samples_per_packet = capacity;
    })

  unfoldable pub block_sample_rate : ReceiverSampleBlock R → R
  block_sample_rate block =
      if double.lt (double.of_ℕ 0) block.sample_rate
      then block.sample_rate
      else block.stream.sample_rate

  -- `block.first_sample_time + offset / sample_rate`.
  unfoldable pub packet_time : ReceiverSampleBlock R → ℕ → R
  unfolding block_sample_rate
  packet_time block offset =
      double.add block.first_sample_time (double.div (double.of_ℕ offset) (block_sample_rate block))

  module _ (P : Vita49Packetizer R) (block : ReceiverSampleBlock R) (stream_id : ℕ) where
    -- What the serializer is given for `count` samples from `offset` on.
    unfoldable pub signal_packet : ℕ → ℕ → Timestamp → ℕ → Bool → FixedFullscaleSignalDataPacket F
    signal_packet offset count timestamp packet_count loss = record {
      stream_id = stream_id;
      class_id = fers_vrt_iq_class_id;
      timestamp = timestamp;
      packet_count = packet_count;
      valid_data = block.valid_data;
      calibrated_time = block.calibrated_time;
      reference_lock = block.reference_lock;
      sample_loss = loss;
      samples = take count (drop offset block.samples);
      fullscale = P.adc_fullscale;
    }

    unfoldable pub push_packet :
        PacketizerResult R → ℕ → ℕ → Timestamp → Bool → List ℕ → ℕ → PacketizerResult R
    push_packet result offset count timestamp loss bytes clipped = record {
      packets =
          result.packets
          ++ record {
            bytes = bytes;
            stream_id = stream_id;
            sample_count = count;
            first_sample_time = packet_time block offset;
            data_packet = true;
            context_packet = false;
            over_range = ltb 0 clipped;
            sample_loss = loss;
            timestamp = timestamp;
          }
            ∷ [];
      samples_emitted = result.samples_emitted + count;
      over_range_count = result.over_range_count + clipped;
    }

    -- One round of the loop: the next packet, and the counter, which has moved on also when the
    -- serializer throws.
    unfoldable pub packet_round :
        ℕ
        → Bool
        → PacketCountSequencer
        → PacketizerResult R
        → Result (PacketizerResult R) × PacketCountSequencer
    packet_round offset loss counts result =
        let count = min P.max_complex_samples_per_packet (length block.samples - offset) in
        elim (timestamp_from_epoch F P.epoch_unix_nanoseconds (packet_time block offset)) [
          | err e ↦ (err e, counts)
          | ok timestamp ↦
              let (packet_count, counts') = next counts in
              let sent =
                serialize_signal_data_fixed_fullscale F
                  (signal_packet offset count timestamp packet_count loss)
                >>= λ serialized.
                    throw_if (ltb P.max_udp_payload_bytes (length serialized.bytes)) logic_error
                    >> ok (
                        push_packet result offset count timestamp loss serialized.bytes
                          serialized.clipped_sample_count) in
              (sent, counts')
        ]

    -- `while (offset < block.samples.size())`. Every round takes a sample or more, so the number of
    -- samples is enough fuel.
    pub packet_loop :
        ℕ
        → ℕ
        → Bool
        → PacketCountSequencer
        → PacketizerResult R
        → Result (PacketizerResult R) × PacketCountSequencer
    packet_loop zero offset loss counts result = (ok result, counts)
    packet_loop (suc fuel) offset loss counts result = elim (ltb offset (length block.samples)) [
      | false ↦ (ok result, counts)
      | true ↦
          let round = packet_round offset loss counts result in
          let count = min P.max_complex_samples_per_packet (length block.samples - offset) in
          elim (round.0) [
            | err e ↦ (err e, round.1)
            | ok result' ↦ packet_loop fuel (offset + count) false round.1 result'
          ]
    ]

    abbrev empty_result : PacketizerResult R
    empty_result = record { packets = []; samples_emitted = 0; over_range_count = 0 }

    -- The result, and the caller's packet counter as the call leaves it.
    unfoldable pub packetize :
        PacketCountSequencer → Bool → Result (PacketizerResult R) × PacketCountSequencer
    unfolding packet_loop
    packetize packet_counts sample_loss_pending =
        if is_empty block.samples
        then (ok empty_result, packet_counts)
        else if not (double.is_finite (block_sample_rate block))
            || double.le (block_sample_rate block) (double.of_ℕ 0)
        then (err invalid_argument, packet_counts)
        else packet_loop (length block.samples) 0 sample_loss_pending packet_counts empty_result

  -- `dump` prints JSON: see Vita49/Serializer.
  unfoldable pub make_context_packet :
      (Json R → Result Text) → Vita49Packetizer R → ContextPacket R → Result (SerializedPacket R)
  make_context_packet dump P context = do
    bytes ← serialize_context F dump context
    throw_if (ltb P.max_udp_payload_bytes (length bytes)) logic_error
    ok (record {
      bytes = bytes;
      stream_id = context.stream_id;
      sample_count = 0;
      first_sample_time = double.of_ℕ 0;
      data_packet = false;
      context_packet = true;
      over_range = false;
      sample_loss = bit context.context_flags 2 == 1;
      timestamp = context.timestamp;
    })
