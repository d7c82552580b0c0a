-- ===== src/Vita49/Serializer/Signal.antt =====
-- `serializeSignalData`: what it throws, and that a packet can be read back.
use mathlib.Core.List.{append_assoc}
use fers.Base.{
  ℕ, ◌+◌, ◌*◌, ◌/◌, ◌%◌, ◌^◌, ◌≤◌, ◌<◌, ◌≡◌, ◌⊎◌, inl, inr, true, List, ◌++◌, some, Result, ok, err,
  arith, length, length-append, invalid_argument, length_error, Bool-cases, leb, leb→le,
}
use fers.Vita49.Types.{
  SignalDataPacket, signal_data_with_stream_id, utc, real_time_picoseconds, make_header,
}
use fers.Vita49.Types.Header.{HeaderFields, make_header-HeaderFields}
use fers.Vita49.Writer.{new_writer, write_u32, checked_word_count}
use fers.Vita49.Writer.Laws.{be32, write_u32_lem, length-be32}
use fers.Vita49.Serializer.{write_prologue, write_items, serialize_signal_data}
use fers.Vita49.Serializer.Layout.{
  prologue_bytes, item_bytes, write_prologue_lem, write_items_lem, length-prologue_bytes,
  length-item_bytes, AllI16, SignalView, read_signal, read_signal_lem,
}

parity : (n : ℕ) → (n % 2 ≡ 1) ⊎ (n % 2 ≡ 0)
parity n = omega arith

-- The header of a packet with `n` items.
unfoldable pub signal_header : ℕ → ℕ → ℕ
signal_header packet_count n =
    make_header signal_data_with_stream_id true true utc real_time_picoseconds packet_count
      ((32 + n * 2) / 4)

unfoldable pub signal_bytes : SignalDataPacket → List ℕ
signal_bytes p =
    prologue_bytes (signal_header p.packet_count (length p.iq_interleaved)) p.stream_id p.class_id
      p.timestamp
    ++ (item_bytes p.iq_interleaved ++ be32 p.trailer)

written_bytes :
    (p : SignalDataPacket)
    → (write_u32 p.trailer (
        write_items p.iq_interleaved (
          write_prologue
            (signal_header p.packet_count (length p.iq_interleaved))
            p.stream_id
            p.class_id
            p.timestamp
            new_writer))).bytes
      ≡ signal_bytes p
unfolding signal_bytes
written_bytes p = simp (write_u32_lem, write_items_lem, write_prologue_lem, append_assoc)

pub length-signal_bytes :
    (p : SignalDataPacket) → length (signal_bytes p) ≡ 32 + length p.iq_interleaved * 2
unfolding signal_bytes
length-signal_bytes p =
    simp (length-append, length-prologue_bytes, length-item_bytes, length-be32) (omega arith)

-- The largest item count whose packet has a 16-bit size in words.
abbrev pub max_items : ℕ
max_items = 131_054

checked_word_count_items :
    (n : ℕ) → n % 2 ≡ 0 → n ≤ max_items → checked_word_count (32 + n * 2) ≡ ok ((32 + n * 2) / 4)
unfolding checked_word_count
checked_word_count_items n even h = ground arith

checked_word_count_large :
    (n : ℕ) → n % 2 ≡ 0 → max_items < n → checked_word_count (32 + n * 2) ≡ err length_error
unfolding checked_word_count
checked_word_count_large n even h = ground arith

pub serialize_signal_data_ok :
    (p : SignalDataPacket)
    → length p.iq_interleaved % 2 ≡ 0
    → length p.iq_interleaved ≤ max_items
    → serialize_signal_data p ≡ ok (signal_bytes p)
unfolding serialize_signal_data signal_header
serialize_signal_data_ok p even h = ground (
  arith,
  checked_word_count_items (length p.iq_interleaved) even h,
  written_bytes p,
  length-signal_bytes p,
)

serialize_signal_data_odd :
    (p : SignalDataPacket)
    → length p.iq_interleaved % 2 ≡ 1
    → serialize_signal_data p ≡ err invalid_argument
unfolding serialize_signal_data
serialize_signal_data_odd p odd = ground arith

serialize_signal_data_large :
    (p : SignalDataPacket)
    → length p.iq_interleaved % 2 ≡ 0
    → max_items < length p.iq_interleaved
    → serialize_signal_data p ≡ err length_error
unfolding serialize_signal_data
serialize_signal_data_large p even h =
    ground (arith, checked_word_count_large (length p.iq_interleaved) even h)

-- The three outcomes of serializing a packet.
pub data SignalOutcome (p : SignalDataPacket) : Result (List ℕ) → Type 0 where
  unpaired : length p.iq_interleaved % 2 ≡ 1 → SignalOutcome p (err invalid_argument)
  oversized :
      length p.iq_interleaved % 2 ≡ 0
      → max_items < length p.iq_interleaved
      → SignalOutcome p (err length_error)
  serialized :
      (bytes : List ℕ)
      → length p.iq_interleaved % 2 ≡ 0
      → length p.iq_interleaved ≤ max_items
      → length bytes ≡ 32 + length p.iq_interleaved * 2
      → SignalOutcome p (ok bytes)

-- Every packet either has an odd number of items, and is refused as an invalid argument; or it has
-- more than a 16-bit word count can tell, and is refused by its length; or it is written, in
-- 32 bytes and two more for each item. The check of the written size never fails.
pub serialize_signal_data-SignalOutcome :
    (p : SignalDataPacket) → SignalOutcome p (serialize_signal_data p)
serialize_signal_data-SignalOutcome p = elim (parity (length p.iq_interleaved)) [
  | inl odd ↦ rw (serialize_signal_data_odd p odd) (unpaired odd)
  | inr even ↦ elim (Bool-cases (leb (length p.iq_interleaved) max_items)) [
    | inl fits ↦
        let h : length p.iq_interleaved ≤ max_items = leb→le _ _ fits in
        rw (serialize_signal_data_ok p even h)
          (serialized (signal_bytes p) even h (length-signal_bytes p))
    | inr large ↦
        let h : max_items < length p.iq_interleaved = ground arith in
        rw (serialize_signal_data_large p even h) (oversized even h)
  ]
]

-- A packet's fields fit their widths.
pub record SignalFits (p : SignalDataPacket) : Type 0 where
  pub stream_id_fits : p.stream_id < 2 ^ 32
  pub class_id_fits : p.class_id < 2 ^ 64
  pub seconds_fit : p.timestamp.integer_seconds < 2 ^ 32
  pub picoseconds_fit : p.timestamp.fractional_picoseconds < 2 ^ 64
  pub trailer_fits : p.trailer < 2 ^ 32
  pub items_fit : AllI16 p.iq_interleaved

abbrev pub view_of : SignalDataPacket → SignalView
view_of p = record {
  header = signal_header p.packet_count (length p.iq_interleaved);
  stream_id = p.stream_id;
  class_id = p.class_id;
  timestamp = p.timestamp;
  items = p.iq_interleaved;
  trailer = p.trailer;
}

signal_header-HeaderFields :
    (packet_count n : ℕ)
    → n ≤ max_items
    → HeaderFields
        (signal_header packet_count n)
        signal_data_with_stream_id
        true
        true
        utc
        real_time_picoseconds
        (packet_count % 16)
        ((32 + n * 2) / 4)
unfolding signal_header
signal_header-HeaderFields packet_count n h =
    make_header-HeaderFields signal_data_with_stream_id true true utc real_time_picoseconds
      packet_count ((32 + n * 2) / 4) (omega arith)

pub read_signal-signal_bytes :
    (p : SignalDataPacket) (rest : List ℕ)
    → length p.iq_interleaved % 2 ≡ 0
    → length p.iq_interleaved ≤ max_items
    → SignalFits p
    → read_signal (signal_bytes p ++ rest) ≡ some (view_of p, rest)
unfolding signal_bytes
read_signal-signal_bytes p rest even h fits =
    let header = signal_header-HeaderFields p.packet_count (length p.iq_interleaved) h in
    simp append_assoc (
      read_signal_lem (signal_header p.packet_count (length p.iq_interleaved)) p.stream_id
        p.class_id p.timestamp p.iq_interleaved p.trailer rest header.fits fits.stream_id_fits
        fits.class_id_fits fits.seconds_fit fits.picoseconds_fit fits.trailer_fits fits.items_fit
        (omega arith))

-- A packet of I/Q pairs that its header can size, its fields within their widths, serializes, and a
-- reader that knows only the byte layout gets every field and item back from the bytes and stops
-- where they end.
pub read_signal-serialize_signal_data :
    (p : SignalDataPacket) (rest : List ℕ)
    → length p.iq_interleaved % 2 ≡ 0
    → length p.iq_interleaved ≤ max_items
    → SignalFits p
    → (bytes : List ℕ) × (serialize_signal_data p ≡ ok bytes)
      × (read_signal (bytes ++ rest) ≡ some (view_of p, rest))
read_signal-serialize_signal_data p rest even h fits =
    (signal_bytes p, serialize_signal_data_ok p even h, read_signal-signal_bytes p rest even h fits)
