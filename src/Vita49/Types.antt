-- ===== src/Vita49/Types.antt =====
-- packages/libfers/src/serial/vita49/vita49_types.h and vita49_types.cpp, but for the epoch
-- arithmetic (Vita49/Timestamp): packet headers, indicator words, packet counts and sizes.
pub mod Header
pub mod Indicators
pub mod Counts
use fers.Base.{
  ℕ, ◌+◌, ◌-◌, ◌*◌, ◌/◌, ◌%◌, ◌^◌, bit_or, Bool, List, Result, ok, err, throw_if, ◌>>◌,
  invalid_argument, ltb, if◌then◌else◌,
}
use fers.Base.Bits.{low_bits}
use fers.Base.Int.{ℤ}

abbrev pub signal_data_fixed_bytes : ℕ
signal_data_fixed_bytes = 32

-- The constants below are `constexpr` expressions of the source, evaluated.
abbrev pub fers_vrt_iq_class_id : ℕ
fers_vrt_iq_class_id = 0xFA5253 * 2 ^ 40 + 0x0001 * 2 ^ 24 + 0x0001 * 2 ^ 8 + 0x01

pub data PacketType : Type 0 where
  signal_data_with_stream_id context : PacketType

abbrev pub packet_type_code : PacketType → ℕ
packet_type_code signal_data_with_stream_id = 0x1
packet_type_code context = 0x4

pub data IntegerTimestampMode : Type 0 where
  no_integer utc gps other : IntegerTimestampMode

abbrev pub integer_mode_code : IntegerTimestampMode → ℕ
integer_mode_code no_integer = 0
integer_mode_code utc = 1
integer_mode_code gps = 2
integer_mode_code other = 3

pub data FractionalTimestampMode : Type 0 where
  no_fraction sample_count real_time_picoseconds free_running : FractionalTimestampMode

abbrev pub fractional_mode_code : FractionalTimestampMode → ℕ
fractional_mode_code no_fraction = 0
fractional_mode_code sample_count = 1
fractional_mode_code real_time_picoseconds = 2
fractional_mode_code free_running = 3

pub record Timestamp : Type 0 where
  pub integer_seconds : ℕ
  pub fractional_picoseconds : ℕ

pub record SignalDataPacket : Type 0 where
  pub stream_id : ℕ
  pub class_id : ℕ
  pub timestamp : Timestamp
  pub packet_count : ℕ
  pub iq_interleaved : List ℤ
  pub trailer : ℕ

-- The counter's byte, `_next`.
pub record PacketCountSequencer : Type 0 where
  pub next_count : ℕ

pub new_sequencer : PacketCountSequencer
new_sequencer = record { next_count = 0 }

pub next : PacketCountSequencer → ℕ × PacketCountSequencer
next s = (low_bits s.next_count 4, record { next_count = low_bits (s.next_count + 1) 4 })

pub set_next : ℕ → PacketCountSequencer
set_next packet_count = record { next_count = low_bits packet_count 4 }

pub peek : PacketCountSequencer → ℕ
peek s = low_bits s.next_count 4

unfoldable pub make_header :
    PacketType → Bool → Bool → IntegerTimestampMode → FractionalTimestampMode → ℕ → ℕ → ℕ
make_header type class_id_present trailer_present tsi tsf packet_count packet_size_words =
    let typed = packet_type_code type * 2 ^ 28 in
    let classed = if class_id_present then bit_or typed (2 ^ 27) else typed in
    let trailed = if trailer_present then bit_or classed (2 ^ 26) else classed in
    let formatted = bit_or trailed (2 ^ 25) in
    let with_tsi = bit_or formatted (integer_mode_code tsi * 2 ^ 22) in
    let with_tsf = bit_or with_tsi (fractional_mode_code tsf * 2 ^ 20) in
    let counted = bit_or with_tsf (low_bits packet_count 4 * 2 ^ 16) in
    bit_or counted packet_size_words

-- `if (b) word |= flag;`
unfoldable pub or_if : Bool → ℕ → ℕ → ℕ
or_if b flag word = if b then bit_or word flag else word

-- The enable bits are always set; a valid, calibrated, locked, clipped or lossy packet adds the
-- indicator under each.
unfoldable pub make_trailer : Bool → Bool → Bool → Bool → Bool → ℕ
unfolding or_if
make_trailer valid_data calibrated_time reference_lock over_range sample_loss =
    let enables = bit_or (bit_or (bit_or (bit_or (2 ^ 30) (2 ^ 31)) (2 ^ 29)) (2 ^ 28)) (2 ^ 27) in
    let with_valid = or_if valid_data (2 ^ 14) enables in
    let with_time = or_if calibrated_time (2 ^ 15) with_valid in
    let with_lock = or_if reference_lock (2 ^ 13) with_time in
    let with_range = or_if over_range (2 ^ 12) with_lock in or_if sample_loss (2 ^ 11) with_range

unfoldable pub make_context_state_indicators : Bool → Bool → Bool → Bool → Bool → ℕ
make_context_state_indicators = make_trailer

unfoldable pub make_complex_int16_payload_format : ℕ
make_complex_int16_payload_format =
    bit_or
      (bit_or
        (bit_or (bit_or (bit_or (bit_or (0x2 * 2 ^ 60) (0x1 * 2 ^ 56)) (16 * 2 ^ 48)) (16 * 2 ^ 40))
          (2 * 2 ^ 32))
        (1 * 2 ^ 16))
      1

-- The operand widths keep every value below 2 ^ 32, so nothing wraps.
unfoldable pub max_complex_samples_per_signal_packet : ℕ → Result ℕ
max_complex_samples_per_signal_packet max_udp_payload_bytes = do
  throw_if (ltb max_udp_payload_bytes (signal_data_fixed_bytes + 2 * 2)) invalid_argument
  ok ((max_udp_payload_bytes - signal_data_fixed_bytes) / (2 * 2))
