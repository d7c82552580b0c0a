-- ===== src/Examples/Wire.antt =====
-- The packet format at concrete inputs: packets/libfers/src/serial/vita49/vita49_types.cpp and
-- vita49_serializer.cpp.
use fers.Base.{
  err, out_of_range, ◌⊎◌, ℕ, ◌+◌, ◌*◌, ◌/◌, ◌%◌, ◌^◌, ◌≤◌, ◌<◌, ◌≡◌, refl, true, false, List, [],
  ◌∷◌, ◌++◌, some, Result, ok, arith, length, ◌>>=◌,
}
use fers.Base.Int.{pos, negsuc, pos_part}
use fers.Base.Text.{Text, lit}
use fers.Vita49.Types.{Timestamp}
use fers.Vita49.Types.{
  SignalDataPacket, context, utc, real_time_picoseconds, make_header, make_trailer,
  fers_vrt_iq_class_id, set_next, peek,
}
use fers.Vita49.Types.Header.{HeaderFields, make_header-HeaderFields}
use fers.Vita49.Types.Indicators.{TrailerFields, make_trailer-TrailerFields}
use fers.Vita49.Types.Counts.{next_many, CountsFrom, next_many-CountsFrom}
use fers.Vita49.Timestamp.{
  carried, carry_down, carry_up, finish, timestamp_from_epoch, signed_seconds, rounded_picoseconds,
  ps_per_second, fraction_sum,
}
use fers.Vita49.Timestamp.Laws.{
  timestamp_from_epoch_value, timestamp_from_epoch_returns, total_picoseconds, whole_seconds,
  left_picoseconds,
}
use fers.Vita49.Writer.{write_ascii_metadata}
use fers.Vita49.Writer.Laws.{read_text, write_ascii_metadata-read_text}
use fers.Vita49.Metadata.{Json}
use fers.Vita49.Serializer.{
  serialize_signal_data, FixedFullscaleSignalDataPacket, serialize_signal_data_fixed_fullscale,
  serialize_context,
}
use fers.Vita49.Serializer.Layout.{read_signal}
use fers.Vita49.Serializer.Signal.{
  SignalOutcome, SignalFits, view_of, serialize_signal_data-SignalOutcome,
  read_signal-serialize_signal_data,
}
use fers.Vita49.Serializer.Fullscale.{
  scaled_packet, with_clipped, clipped_count, serialize_signal_data_fixed_fullscale_lem,
}
use fers.Vita49.Serializer.Context.{
  read_context, context_view, ContextFits, read_context-serialize_context,
}
use fers.Vita49.ContextBuilder.{build}
use fers.Vita49.ContextBuilder.Flags.{ContextFlags, build-ContextFlags, build-ContextFits}
use fers.Examples.Fixed.{unit, numbers, fixed-TimestampLaws}
use fers.Examples.Data.{noon, block, request}

make_header-HeaderFields_example :
    HeaderFields
      (make_header context true false utc real_time_picoseconds 21 40)
      context
      true
      false
      utc
      real_time_picoseconds
      5
      40
make_header-HeaderFields_example =
    make_header-HeaderFields context true false utc real_time_picoseconds 21 40 (omega arith)

make_trailer-TrailerFields_example :
    TrailerFields (make_trailer true false true false true) true false true false true
make_trailer-TrailerFields_example = make_trailer-TrailerFields true false true false true

next_many-CountsFrom_example :
    CountsFrom 14 (next_many 4 (set_next 14)).0
    × (length (next_many 4 (set_next 14)).0 ≡ 4)
    × (peek (next_many 4 (set_next 14)).1 ≡ 2)
next_many-CountsFrom_example = next_many-CountsFrom 4 14

-- Half a second after the second 1,000 of the epoch.
abbrev half_past : ℕ
half_past = 500_000_000

stamped :
    timestamp_from_epoch numbers (1_000 * unit) half_past
    ≡ ok (record { integer_seconds = 1_000; fractional_picoseconds = 500_000_000_000 })
unfolding timestamp_from_epoch finish signed_seconds rounded_picoseconds carried carry_down carry_up
    fraction_sum
stamped = refl

timestamp_from_epoch_value_example :
    (1_000 < 2 ^ 32)
    × (500_000_000_000 < ps_per_second)
    × (whole_seconds numbers (1_000 * unit) half_past
        ≡ pos (pos_part (whole_seconds numbers (1_000 * unit) half_past)))
    × (total_picoseconds numbers
          (record { integer_seconds = 1_000; fractional_picoseconds = 500_000_000_000 })
        ≡ pos_part (whole_seconds numbers (1_000 * unit) half_past) * ps_per_second
          + left_picoseconds numbers (1_000 * unit) half_past)
timestamp_from_epoch_value_example =
    timestamp_from_epoch_value numbers fixed-TimestampLaws (1_000 * unit) half_past stamped

timestamp_from_epoch_returns_example :
    let total = 1_000 * ps_per_second + left_picoseconds numbers (1_000 * unit) half_past in
    ((total < 2 ^ 32 * ps_per_second)
      × ((stamp : Timestamp) × (timestamp_from_epoch numbers (1_000 * unit) half_past ≡ ok stamp)
          × (total_picoseconds numbers stamp ≡ total)))
    ⊎ ((2 ^ 32 * ps_per_second ≤ total)
        × (timestamp_from_epoch numbers (1_000 * unit) half_past ≡ err out_of_range))
unfolding fraction_sum
timestamp_from_epoch_returns_example =
    timestamp_from_epoch_returns numbers fixed-TimestampLaws (1_000 * unit) half_past 1_000 refl
      refl

write_ascii_metadata-read_text_example :
    (field : List ℕ) × (write_ascii_metadata (lit "{}") (record { bytes = 1 ∷ [] })
      ≡ ok (record { bytes = (1 ∷ []) ++ field }))
    × (length ((1 ∷ []) ++ field) % 4 ≡ 0)
    × (read_text field ≡ lit "{}")
    × (length field ≤ 6)
write_ascii_metadata-read_text_example =
    write_ascii_metadata-read_text (lit "{}") (record { bytes = 1 ∷ [] })
      (omega arith, omega arith, (omega arith, omega arith, tt)) (omega arith)

-- Two I/Q pairs.
abbrev packet : SignalDataPacket
packet = record {
  stream_id = 99;
  class_id = fers_vrt_iq_class_id;
  timestamp = noon;
  packet_count = 3;
  iq_interleaved = pos 1 ∷ negsuc 0 ∷ pos 32_767 ∷ negsuc 32_767 ∷ [];
  trailer = 0xE00;
}

packet-SignalFits : SignalFits packet
packet-SignalFits = record {
  stream_id_fits = omega arith;
  class_id_fits = omega arith;
  seconds_fit = omega arith;
  picoseconds_fit = omega arith;
  trailer_fits = omega arith;
  items_fit = (omega arith, (omega arith, (omega arith, (omega arith, tt))));
}

read_signal-serialize_signal_data_example :
    (bytes : List ℕ) × (serialize_signal_data packet ≡ ok bytes)
    × (read_signal (bytes ++ (1 ∷ [])) ≡ some (view_of packet, 1 ∷ []))
read_signal-serialize_signal_data_example =
    read_signal-serialize_signal_data packet (1 ∷ []) refl (omega arith) packet-SignalFits

serialize_signal_data-SignalOutcome_example : SignalOutcome packet (serialize_signal_data packet)
serialize_signal_data-SignalOutcome_example = serialize_signal_data-SignalOutcome packet

abbrev scaled : FixedFullscaleSignalDataPacket numbers
scaled = record {
  stream_id = 99;
  class_id = fers_vrt_iq_class_id;
  timestamp = noon;
  packet_count = 3;
  valid_data = true;
  calibrated_time = true;
  reference_lock = true;
  sample_loss = false;
  samples = block.samples;
  fullscale = 2 * unit;
}

serialize_signal_data_fixed_fullscale_example :
    serialize_signal_data_fixed_fullscale numbers scaled ≡ (
      serialize_signal_data (scaled_packet numbers scaled)
      >>= with_clipped numbers (clipped_count numbers (2 * unit) block.samples))
serialize_signal_data_fixed_fullscale_example =
    serialize_signal_data_fixed_fullscale_lem numbers scaled

-- The metadata's text, from a printer that the serializer is given.
abbrev dump : Json ℕ → Result Text
dump json = ok (lit "{}")

built-ContextFits : ContextFits numbers (build ℕ request)
built-ContextFits =
    build-ContextFits numbers request (omega arith) (omega arith) (omega arith) (omega arith)

build-ContextFlags_example : ContextFlags (build ℕ request).context_flags request
build-ContextFlags_example = build-ContextFlags request

bits-lt : (x : ℕ) → numbers.bits x < 2 ^ 64
bits-lt x = omega arith

read_context-serialize_context_example :
    (bytes : List ℕ) × (header : ℕ) × (serialize_context numbers dump (build ℕ request) ≡ ok bytes)
    × HeaderFields header context true false utc real_time_picoseconds
        ((build ℕ request).packet_count % 16)
        (length bytes / 4)
    × (length bytes % 4 ≡ 0)
    × (read_context bytes ≡ some (context_view numbers (build ℕ request) header (lit "{}")))
read_context-serialize_context_example =
    read_context-serialize_context numbers bits-lt dump (build ℕ request) (lit "{}") refl
      (omega arith, omega arith, (omega arith, omega arith, tt)) (omega arith) built-ContextFits
