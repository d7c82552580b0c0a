-- ===== src/Vita49/Types/Header.antt =====
-- Reading a packet header back. Its fields are those of the VITA 49.2 prologue word.
use fers.Base.{
  ℕ, ◌+◌, ◌*◌, ◌%◌, ◌^◌, ◌≤◌, ◌<◌, bit_or, ◌≡◌, refl, Bool, true, false, arith, if◌then◌else◌,
}
use fers.Base.Bits.{bit_or-field, low_bits, shr, bit}
use fers.Vita49.Types.{
  PacketType, signal_data_with_stream_id, context, packet_type_code, IntegerTimestampMode,
  no_integer, utc, gps, other, integer_mode_code, FractionalTimestampMode, no_fraction,
  sample_count, real_time_picoseconds, free_running, fractional_mode_code, make_header,
}

abbrev pub bit_of : Bool → ℕ
bit_of b = if b then 1 else 0

pub record HeaderFields (h : ℕ) (type : PacketType) (class_id trailer : Bool)
    (tsi : IntegerTimestampMode) (tsf : FractionalTimestampMode) (count words : ℕ) : Type 0 where
  pub fits : h < 2 ^ 32
  pub type_field : shr h 28 ≡ packet_type_code type
  pub class_bit : bit h 27 ≡ bit_of class_id
  pub trailer_bit : bit h 26 ≡ bit_of trailer
  pub format_bit : bit h 25 ≡ 1
  pub reserved_bit : bit h 24 ≡ 0
  pub tsi_field : low_bits (shr h 22) 2 ≡ integer_mode_code tsi
  pub tsf_field : low_bits (shr h 20) 2 ≡ fractional_mode_code tsf
  pub count_field : low_bits (shr h 16) 4 ≡ count
  pub size_field : low_bits h 16 ≡ words

integer_mode_code-lt : (m : IntegerTimestampMode) → integer_mode_code m < 4
integer_mode_code-lt no_integer = omega arith
integer_mode_code-lt utc = omega arith
integer_mode_code-lt gps = omega arith
integer_mode_code-lt other = omega arith

fractional_mode_code-lt : (m : FractionalTimestampMode) → fractional_mode_code m < 4
fractional_mode_code-lt no_fraction = omega arith
fractional_mode_code-lt sample_count = omega arith
fractional_mode_code-lt real_time_picoseconds = omega arith
fractional_mode_code-lt free_running = omega arith

packet_type_code-lt : (t : PacketType) → packet_type_code t < 16
packet_type_code-lt signal_data_with_stream_id = omega arith
packet_type_code-lt context = omega arith

pub bit_of-le : (b : Bool) → bit_of b ≤ 1
bit_of-le true = omega arith
bit_of-le false = omega arith

HeaderFields-of_sum :
    (h : ℕ) (type : PacketType) (class_id trailer : Bool) (tsi : IntegerTimestampMode)
    (tsf : FractionalTimestampMode) (count words : ℕ)
    → count < 16
    → words < 2 ^ 16
    → h
      ≡ packet_type_code type * 2 ^ 28
        + bit_of class_id * 2 ^ 27
        + bit_of trailer * 2 ^ 26
        + 2 ^ 25
        + integer_mode_code tsi * 2 ^ 22
        + fractional_mode_code tsf * 2 ^ 20
        + count * 2 ^ 16
        + words
    → HeaderFields h type class_id trailer tsi tsf count words
HeaderFields-of_sum h type class_id trailer tsi tsf count words hc hw e = omega (
  arith,
  packet_type_code-lt type,
  bit_of-le class_id,
  bit_of-le trailer,
  integer_mode_code-lt tsi,
  fractional_mode_code-lt tsf,
)

or-field :
    (k word sum field : ℕ)
    → word ≡ sum
    → sum % 2 ^ k ≡ 0
    → field < 2 ^ k
    → bit_or word field ≡ sum + field
or-field k word sum field e clear fits = rw e (bit_or-field k sum field clear fits)

or-flag :
    (k : ℕ) (b : Bool) (word sum flag : ℕ)
    → word ≡ sum
    → sum % 2 ^ k ≡ 0
    → flag < 2 ^ k
    → (if b then bit_or word flag else word) ≡ sum + bit_of b * flag
or-flag k true word sum flag e clear fits = omega (arith, or-field k word sum flag e clear fits)
or-flag k false word sum flag e clear fits = omega arith

-- The header as a sum, over the codes.
header-sum :
    (t : ℕ) (class_id trailer : Bool) (i f c words : ℕ)
    → i < 4
    → f < 4
    → c < 16
    → words < 2 ^ 16
    → (let classed = if class_id then bit_or (t * 2 ^ 28) (2 ^ 27) else t * 2 ^ 28 in
        let trailed = if trailer then bit_or classed (2 ^ 26) else classed in
        bit_or
          (bit_or
            (bit_or (bit_or (bit_or trailed (2 ^ 25)) (i * 2 ^ 22)) (f * 2 ^ 20))
            (c * 2 ^ 16))
          words)
      ≡ t * 2 ^ 28
        + bit_of class_id * 2 ^ 27
        + bit_of trailer * 2 ^ 26
        + 2 ^ 25
        + i * 2 ^ 22
        + f * 2 ^ 20
        + c * 2 ^ 16
        + words
header-sum t class_id trailer i f c words hi hf hc hw =
    let classed =
      or-flag 28 class_id (t * 2 ^ 28) (t * 2 ^ 28) (2 ^ 27) refl (omega arith) (omega arith) in
    let trailed = or-flag 27 trailer _ _ (2 ^ 26) classed (omega arith) (omega arith) in
    let formatted = or-field 26 _ _ (2 ^ 25) trailed (omega arith) (omega arith) in
    let with_tsi = or-field 24 _ _ (i * 2 ^ 22) formatted (omega arith) (omega arith) in
    let with_tsf = or-field 22 _ _ (f * 2 ^ 20) with_tsi (omega arith) (omega arith) in
    let counted = or-field 20 _ _ (c * 2 ^ 16) with_tsf (omega arith) (omega arith) in
    or-field 16 _ _ words counted (omega arith) hw

-- A header holds each field where the standard puts it: the packet type in the top four bits, the
-- class and trailer bits, the 49.2 format bit, the timestamp modes, the packet count modulo 16 and
-- the packet size in words, whenever that size fits 16 bits.
pub make_header-HeaderFields :
    (type : PacketType) (class_id trailer : Bool) (tsi : IntegerTimestampMode)
    (tsf : FractionalTimestampMode) (count words : ℕ)
    → words < 2 ^ 16
    → HeaderFields
        (make_header type class_id trailer tsi tsf count words)
        type
        class_id
        trailer
        tsi
        tsf
        (count % 16)
        words
unfolding make_header
make_header-HeaderFields type class_id trailer tsi tsf count words h =
    let e =
      header-sum (packet_type_code type) class_id trailer (integer_mode_code tsi)
        (fractional_mode_code tsf) (count % 16) words (integer_mode_code-lt tsi)
        (fractional_mode_code-lt tsf) (omega arith) h in
    HeaderFields-of_sum _ type class_id trailer tsi tsf (count % 16) words (omega arith) h e
