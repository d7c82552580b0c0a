-- ===== src/Vita49/Serializer/Context.antt =====
-- `serializeContext`: the bytes of a context packet, and a reader for them.
use mathlib.Core.List.{append_assoc}
use fers.Base.{
  ℕ, ◌+◌, ◌/◌, ◌%◌, ◌^◌, ◌≤◌, ◌<◌, ◌≡◌, refl, ap, ◌∙◌, true, false, List, ◌++◌, Option, some,
  Result, ok, arith, length, length-append,
}
use fers.Base.Text.{Text}
use fers.Floats.{Floats}
use fers.Vita49.Types.{Timestamp, context, utc, real_time_picoseconds, make_header}
use fers.Vita49.Types.Header.{HeaderFields, make_header-HeaderFields}
use fers.Vita49.Descriptor.{ContextPacket}
use fers.Vita49.Metadata.{Json, make_context_metadata_json}
use fers.Vita49.Writer.{
  new_writer, write_f64, write_bytes, write_ascii_metadata, checked_word_count,
}
use fers.Vita49.Writer.Laws.{
  read_be, be32, be64, written, read_be-be32, read_be-be64, length-be32, length-be64, IsPlainText,
  read_text, write_ascii_metadata-read_text,
}
use fers.Vita49.Serializer.{fers_context_cif0, write_context_fields, serialize_context}
use fers.Vita49.Serializer.Layout.{prologue_bytes, write_prologue_lem, length-prologue_bytes, ◌>>=◌}

-- What a reader finds in a context packet.
pub record ContextView : Type 0 where
  pub header : ℕ
  pub stream_id : ℕ
  pub class_id : ℕ
  pub timestamp : Timestamp
  pub cif0 : ℕ
  pub state_indicators : ℕ
  pub payload_format : ℕ
  pub sample_rate_bits : ℕ
  pub reference_frequency_bits : ℕ
  pub if_offset_bits : ℕ
  pub bandwidth_bits : ℕ
  pub adc_fullscale_bits : ℕ
  pub receiver_id : ℕ
  pub metadata : Text

unfoldable pub read_context : List ℕ → Option ContextView
read_context bytes = do
  (header, r1) ← read_be 4 0 bytes
  (stream_id, r2) ← read_be 4 0 r1
  (class_id, r3) ← read_be 8 0 r2
  (seconds, r4) ← read_be 4 0 r3
  (picoseconds, r5) ← read_be 8 0 r4
  (cif0, r6) ← read_be 4 0 r5
  (state_indicators, r7) ← read_be 4 0 r6
  (payload_format, r8) ← read_be 8 0 r7
  (rate, r9) ← read_be 8 0 r8
  (reference, r10) ← read_be 8 0 r9
  (offset, r11) ← read_be 8 0 r10
  (band, r12) ← read_be 8 0 r11
  (fullscale, r13) ← read_be 8 0 r12
  (receiver_id, r14) ← read_be 8 0 r13
  some (record {
    header = header;
    stream_id = stream_id;
    class_id = class_id;
    timestamp = record { integer_seconds = seconds; fractional_picoseconds = picoseconds };
    cif0 = cif0;
    state_indicators = state_indicators;
    payload_format = payload_format;
    sample_rate_bits = rate;
    reference_frequency_bits = reference;
    if_offset_bits = offset;
    bandwidth_bits = band;
    adc_fullscale_bits = fullscale;
    receiver_id = receiver_id;
    metadata = read_text r14;
  })

checked_word_count_ok :
    (n m : ℕ) → n ≡ m → m % 4 ≡ 0 → m ≤ 262_140 → checked_word_count n ≡ ok (m / 4)
unfolding checked_word_count
checked_word_count_ok n m e aligned h = ground arith

module _ (F : Floats) where
  open F use {R, bits}

  unfoldable pub context_field_bytes : ContextPacket R → List ℕ
  context_field_bytes p =
      be32 p.cif0
      ++ (be32 p.state_indicators
          ++ (be64 p.payload_format
              ++ (be64 (bits p.sample_rate)
                  ++ (be64 (bits p.reference_frequency)
                      ++ (be64 (bits p.if_offset)
                          ++ (be64 (bits p.bandwidth)
                              ++ (be64 (bits p.adc_fullscale) ++ be64 p.receiver_id)))))))

  write_context_fields_lem :
      (dump : Json R → Result Text) (p : ContextPacket R)
      → (write_context_fields F dump p).bytes ≡ context_field_bytes p
  unfolding write_context_fields context_field_bytes write_f64
  write_context_fields_lem dump p = simp (written, append_assoc)

  length-context_field_bytes : (p : ContextPacket R) → length (context_field_bytes p) ≡ 64
  unfolding context_field_bytes
  length-context_field_bytes p = simp (length-append, length-be32, length-be64)

  -- The fields fit the widths in which they are written.
  pub record ContextFits (p : ContextPacket R) : Type 0 where
    pub supported : p.cif0 ≡ fers_context_cif0
    pub stream_id_fits : p.stream_id < 2 ^ 32
    pub class_id_fits : p.class_id < 2 ^ 64
    pub seconds_fit : p.timestamp.integer_seconds < 2 ^ 32
    pub picoseconds_fit : p.timestamp.fractional_picoseconds < 2 ^ 64
    pub state_indicators_fit : p.state_indicators < 2 ^ 32
    pub payload_format_fits : p.payload_format < 2 ^ 64
    pub receiver_id_fits : p.receiver_id < 2 ^ 64

  unfoldable pub context_view : ContextPacket R → ℕ → Text → ContextView
  context_view p header metadata = record {
    header = header;
    stream_id = p.stream_id;
    class_id = p.class_id;
    timestamp = p.timestamp;
    cif0 = p.cif0;
    state_indicators = p.state_indicators;
    payload_format = p.payload_format;
    sample_rate_bits = bits p.sample_rate;
    reference_frequency_bits = bits p.reference_frequency;
    if_offset_bits = bits p.if_offset;
    bandwidth_bits = bits p.bandwidth;
    adc_fullscale_bits = bits p.adc_fullscale;
    receiver_id = p.receiver_id;
    metadata = metadata;
  }

  -- `std::bit_cast` of a double is a 64-bit pattern.
  module _ (bits-lt : (x : R) → bits x < 2 ^ 64) where
    read_context_lem :
        (p : ContextPacket R) (header : ℕ) (field : List ℕ)
        → header < 2 ^ 32
        → ContextFits p
        → read_context (
            prologue_bytes header p.stream_id p.class_id p.timestamp
            ++ (context_field_bytes p ++ field))
          ≡ some (context_view p header (read_text field))
    unfolding read_context prologue_bytes context_field_bytes context_view
    read_context_lem p header field h fits =
        let cif0_fits : p.cif0 < 2 ^ 32 = omega (arith, fits.supported) in
        simp append_assoc (
          rw
            (
              read_be-be32 header _ h,
              read_be-be32 p.stream_id _ fits.stream_id_fits,
              read_be-be64 p.class_id _ fits.class_id_fits,
              read_be-be32 p.timestamp.integer_seconds _ fits.seconds_fit,
              read_be-be64 p.timestamp.fractional_picoseconds _ fits.picoseconds_fit,
              read_be-be32 p.cif0 _ cif0_fits,
              read_be-be32 p.state_indicators _ fits.state_indicators_fit,
              read_be-be64 p.payload_format _ fits.payload_format_fits,
              read_be-be64 (bits p.sample_rate) _ (bits-lt p.sample_rate),
              read_be-be64 (bits p.reference_frequency) _ (bits-lt p.reference_frequency),
              read_be-be64 (bits p.if_offset) _ (bits-lt p.if_offset),
              read_be-be64 (bits p.bandwidth) _ (bits-lt p.bandwidth),
              read_be-be64 (bits p.adc_fullscale) _ (bits-lt p.adc_fullscale),
              read_be-be64 p.receiver_id _ fits.receiver_id_fits,
            )
            refl)

    module _ (dump : Json R → Result Text) (p : ContextPacket R) (text : Text)
        (dumped : dump (make_context_metadata_json F p) ≡ ok text) (ascii : IsPlainText text)
        (short : length text ≤ 262_044) (fits : ContextFits p) where
      header_of : ℕ → ℕ
      header_of size =
          make_header context true false utc real_time_picoseconds p.packet_count (size / 4)

      serialize_context_bytes :
          (field : List ℕ)
          → write_ascii_metadata text (write_context_fields F dump p)
            ≡ ok (record { bytes = (write_context_fields F dump p).bytes ++ field })
          → length (context_field_bytes p ++ field) % 4 ≡ 0
          → length field ≤ length text + 4
          → serialize_context F dump p
            ≡ ok (
                prologue_bytes (header_of (92 + length field)) p.stream_id p.class_id p.timestamp
                ++ (context_field_bytes p ++ field))
      unfolding serialize_context header_of write_bytes
      serialize_context_bytes field e aligned h =
          let total = length-append (context_field_bytes p) field in
          let fixed = length-context_field_bytes p in
          let same = write_context_fields_lem dump p in
          ground (
            arith,
            fits.supported,
            checked_word_count_ok (28 + length (context_field_bytes p ++ field))
                (92 + length field),
            write_prologue_lem (header_of (92 + length field)) p.stream_id p.class_id p.timestamp
                new_writer,
          )

      header_fits :
          (n : ℕ)
          → n ≤ 262_140
          → HeaderFields
              (header_of n)
              context
              true
              false
              utc
              real_time_picoseconds
              (p.packet_count % 16)
              (n / 4)
      unfolding header_of
      header_fits n h =
          make_header-HeaderFields context true false utc real_time_picoseconds p.packet_count
            (n / 4) (omega arith)

      -- A context packet whose fields fit their widths, and whose metadata prints to text of
      -- at most 262,044 bytes, each from 1 to 0x7F, serializes. The size in its header, in words, is the size of the
      -- bytes, and a reader that knows only the layout gets back every field, the floating-point
      -- fields by their bit patterns, and the metadata text.
      pub read_context-serialize_context :
          (bytes : List ℕ) × (header : ℕ) × (serialize_context F dump p ≡ ok bytes)
          × HeaderFields header context true false utc real_time_picoseconds
              (p.packet_count % 16)
              (length bytes / 4)
          × (length bytes % 4 ≡ 0)
          × (read_context bytes ≡ some (context_view p header text))
      read_context-serialize_context =
          let (field, written_ok, aligned, read_back, size) =
            write_ascii_metadata-read_text text (write_context_fields F dump p) ascii
              (omega arith) in
          let same = write_context_fields_lem dump p in
          let total = length-append (context_field_bytes p) field in
          let fixed = length-context_field_bytes p in
          let header = header_of (92 + length field) in
          let prologue = prologue_bytes header p.stream_id p.class_id p.timestamp in
          let aligned' : length (context_field_bytes p ++ field) % 4 ≡ 0 = rw (← same) aligned in
          let whole : length (prologue ++ (context_field_bytes p ++ field)) ≡ 92 + length field =
            omega (
              arith,
              length-append prologue (context_field_bytes p ++ field),
              length-prologue_bytes header p.stream_id p.class_id p.timestamp,
            ) in
          (
            prologue ++ (context_field_bytes p ++ field),
            header,
            serialize_context_bytes field written_ok aligned' size,
            rw whole (header_fits (92 + length field) (omega arith)),
            omega arith,
            read_context_lem p header field (header_fits (92 + length field) (omega arith)).fits
                  fits
                ∙ ap (λ t. some (context_view p header t)) read_back,
          )
