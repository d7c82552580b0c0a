-- ===== src/Vita49/Packetizer/Blocks.antt =====
-- What a block's packets are: one round of the loop, then the loop.
use mathlib.Core.List.{append-nil}
use fers.Base.{
  ℕ, ◌+◌, ◌-◌, ◌*◌, ◌%◌, ◌^◌, ◌≤◌, ◌<◌, min, ◌≡◌, refl, sym, ap, ◌∙◌, Bool, true, false, List, [],
  ◌∷◌, ◌++◌, some, ok, arith, ltb, length, take, drop, length-take, length-drop,
}
use fers.Floats.{Floats}
use fers.Vita49.Types.{
  Timestamp, PacketCountSequencer, next, peek, max_complex_samples_per_signal_packet,
}
use fers.Vita49.Types.Counts.{next-peek}
use fers.Vita49.Types.Indicators.{make_trailer-TrailerFields}
use fers.Vita49.Timestamp.{timestamp_from_epoch}
use fers.Vita49.Serializer.{serialize_signal_data_fixed_fullscale}
use fers.Vita49.Serializer.Layout.{AllI16, read_signal}
use fers.Vita49.Serializer.Signal.{
  signal_bytes, view_of, SignalFits, length-signal_bytes, serialize_signal_data_ok,
  read_signal-signal_bytes,
}
use fers.Vita49.Serializer.Fullscale.{
  scaled_items, clipped_count, scaled_packet, length-scaled_items,
  serialize_signal_data_fixed_fullscale_lem,
}
use fers.Vita49.Packetizer.{
  SerializedPacket, PacketizerResult, ReceiverSampleBlock, Vita49Packetizer, new_packetizer,
  packet_time, signal_packet, push_packet, packet_round,
}

-- The capacity that a packetizer is built with is the largest number of samples whose packet fits
-- the datagram limit, and is not zero.
pub new_packetizer_capacity :
    (F : Floats) (epoch : ℕ) (fullscale : F.R) (limit : ℕ) {P : Vita49Packetizer (F.R)}
    → new_packetizer F epoch fullscale limit ≡ ok P
    → (0 < P.max_complex_samples_per_packet)
      × (32 + 4 * P.max_complex_samples_per_packet ≤ P.max_udp_payload_bytes)
      × (P.max_udp_payload_bytes < 32 + 4 * (P.max_complex_samples_per_packet + 1))
      × (P.max_udp_payload_bytes ≡ limit)
unfolding new_packetizer max_complex_samples_per_signal_packet
new_packetizer_capacity F epoch fullscale limit e = ground arith

module _ (F : Floats) where
  open F use {R, double}

  module _ (P : Vita49Packetizer R) (block : ReceiverSampleBlock R) (stream_id : ℕ) where
    -- What the packetizer needs of its configuration, of the clock and of the scaled samples.
    pub record Ready : Type 0 where
      pub capacity_positive : 0 < P.max_complex_samples_per_packet
      pub capacity_fits : 32 + 4 * P.max_complex_samples_per_packet ≤ P.max_udp_payload_bytes
      pub limit_fits : P.max_udp_payload_bytes < 2 ^ 16
      pub fullscale_finite : double.is_finite P.adc_fullscale ≡ true
      pub fullscale_positive : double.le P.adc_fullscale (double.of_ℕ 0) ≡ false
      pub stream_id_fits : stream_id < 2 ^ 32
      pub stamps :
          (offset : ℕ)
          → offset < length block.samples
          → (stamp : Timestamp) × (timestamp_from_epoch F P.epoch_unix_nanoseconds
                (packet_time F block offset)
              ≡ ok stamp)
            × (stamp.integer_seconds < 2 ^ 32)
            × (stamp.fractional_picoseconds < 2 ^ 64)
      pub scaled_fit :
          (offset count : ℕ)
          → AllI16 (scaled_items F P.adc_fullscale (take count (drop offset block.samples)))

    abbrev pub count_at : ℕ → ℕ
    count_at offset = min P.max_complex_samples_per_packet (length block.samples - offset)

    abbrev pub chunk_at : ℕ → List (R × R)
    chunk_at offset = take (count_at offset) (drop offset block.samples)

    -- A packet of the samples from `offset` on, that a reader of its bytes gets back.
    pub record IsPacket (offset : ℕ) (loss : Bool) (packet_count : ℕ) (p : SerializedPacket R)
        : Type 0 where
      pub same_stream : p.stream_id ≡ stream_id
      pub carries : p.sample_count ≡ count_at offset
      pub starts : p.first_sample_time ≡ packet_time F block offset
      pub stamped :
          timestamp_from_epoch F P.epoch_unix_nanoseconds (packet_time F block offset)
          ≡ ok p.timestamp
      pub is_data : p.data_packet ≡ true
      pub not_context : p.context_packet ≡ false
      pub lossy : p.sample_loss ≡ loss
      pub clips : p.over_range ≡ ltb 0 (clipped_count F P.adc_fullscale (chunk_at offset))
      pub size : length p.bytes ≡ 32 + 4 * count_at offset
      pub within : length p.bytes ≤ P.max_udp_payload_bytes
      pub reads :
          read_signal p.bytes
          ≡ some (
            view_of (
                scaled_packet F (
                  signal_packet F P block stream_id offset
                    (count_at offset)
                    p.timestamp
                    packet_count
                    loss)),
            [],
          )

    -- Packets that cover the samples from `offset` to the end without gap or overlap, numbered from
    -- `packet_count` modulo 16, of which only the first may have the loss flag.
    abbrev pub Covers : ℕ → Bool → ℕ → List (SerializedPacket R) → Type 0
    Covers offset loss packet_count [] = length block.samples ≤ offset
    Covers offset loss packet_count (p ∷ ps) =
        (offset < length block.samples)
        × IsPacket offset loss packet_count p
        × Covers (offset + count_at offset) false ((packet_count + 1) % 16) ps

    module _ (ready : Ready) where
      abbrev packet_of : ℕ → Bool → Timestamp → ℕ → SerializedPacket R
      packet_of offset loss stamp packet_count = record {
        bytes = signal_bytes (
            scaled_packet F
              (signal_packet F P block stream_id offset (count_at offset) stamp packet_count loss));
        stream_id = stream_id;
        sample_count = count_at offset;
        first_sample_time = packet_time F block offset;
        data_packet = true;
        context_packet = false;
        over_range = ltb 0 (clipped_count F P.adc_fullscale (chunk_at offset));
        sample_loss = loss;
        timestamp = stamp;
      }

      module _ (offset : ℕ) (loss : Bool) (stamp : Timestamp) (packet_count : ℕ) where
        items_length :
            length
              (scaled_packet F (
                signal_packet F P block stream_id offset
                  (count_at offset)
                  stamp
                  packet_count
                  loss)).iq_interleaved
            ≡ count_at offset * 2
        unfolding scaled_packet signal_packet
        items_length = omega (
          arith,
          length-scaled_items F P.adc_fullscale (chunk_at offset),
          length-take (count_at offset) (drop offset block.samples),
          length-drop offset block.samples,
        )

        sent_fits :
            offset < length block.samples
            → stamp.integer_seconds < 2 ^ 32
            → stamp.fractional_picoseconds < 2 ^ 64
            → SignalFits (
                scaled_packet F (
                  signal_packet F P block stream_id offset
                    (count_at offset)
                    stamp
                    packet_count
                    loss))
        unfolding scaled_packet signal_packet
        sent_fits h seconds picoseconds = record {
          stream_id_fits = ready.stream_id_fits;
          class_id_fits = omega arith;
          seconds_fit = seconds;
          picoseconds_fit = picoseconds;
          trailer_fits =
              (make_trailer-TrailerFields block.valid_data block.calibrated_time
                block.reference_lock (ltb 0 (clipped_count F P.adc_fullscale (chunk_at offset)))
                loss).fits;
          items_fit = ready.scaled_fit offset (count_at offset);
        }

        serialize_lem :
            serialize_signal_data_fixed_fullscale F
              (signal_packet F P block stream_id offset (count_at offset) stamp packet_count loss)
            ≡ ok (record {
              bytes = (packet_of offset loss stamp packet_count).bytes;
              clipped_sample_count = clipped_count F P.adc_fullscale (chunk_at offset);
            })
        unfolding signal_packet
        serialize_lem =
            let sent =
              signal_packet F P block stream_id offset (count_at offset) stamp packet_count loss in
            let cap = ready.capacity_fits in
            let lim = ready.limit_fits in
            let n = items_length in
            ground (
              arith,
              ready.fullscale_finite,
              ready.fullscale_positive,
              serialize_signal_data_fixed_fullscale_lem F sent,
              serialize_signal_data_ok (scaled_packet F sent) (omega arith) (omega arith),
            )

        packet_of-IsPacket :
            offset < length block.samples
            → timestamp_from_epoch F P.epoch_unix_nanoseconds (packet_time F block offset)
              ≡ ok stamp
            → stamp.integer_seconds < 2 ^ 32
            → stamp.fractional_picoseconds < 2 ^ 64
            → IsPacket offset loss packet_count (packet_of offset loss stamp packet_count)
        packet_of-IsPacket h e seconds picoseconds =
            let sent = scaled_packet F (
              signal_packet F P block stream_id offset (count_at offset) stamp packet_count loss) in
            let cap = ready.capacity_fits in
            let lim = ready.limit_fits in
            let n = items_length in
            let size = length-signal_bytes sent in
            record {
              same_stream = refl;
              carries = refl;
              starts = refl;
              stamped = e;
              is_data = refl;
              not_context = refl;
              lossy = refl;
              clips = refl;
              size = omega arith;
              within = omega arith;
              reads =
                  ap read_signal (sym (append-nil (signal_bytes sent)))
                  ∙ read_signal-signal_bytes sent [] (omega arith) (omega arith)
                      (sent_fits h seconds picoseconds);
            }

      -- One round: the packet of the next samples, under the counter's number.
      pub packet_round_lem :
          (offset : ℕ) (loss : Bool) (counts : PacketCountSequencer) (result : PacketizerResult R)
          → offset < length block.samples
          → (p : SerializedPacket R) × IsPacket offset loss (peek counts) p
            × (packet_round F P block stream_id offset loss counts result ≡ (
              ok (record {
                packets = result.packets ++ p ∷ [];
                samples_emitted = result.samples_emitted + count_at offset;
                over_range_count =
                    result.over_range_count + clipped_count F P.adc_fullscale (chunk_at offset);
              }),
              (next counts).1,
            ))
      unfolding packet_round push_packet
      packet_round_lem offset loss counts result h =
          let (stamp, e, seconds, picoseconds) = ready.stamps offset h in
          let shape = packet_of-IsPacket offset loss stamp (peek counts) h e seconds picoseconds in
          (
            packet_of offset loss stamp (peek counts),
            shape,
            ground (
              arith,
              (next-peek counts).0,
              shape.within,
              serialize_lem offset loss stamp (peek counts),
            ),
          )
