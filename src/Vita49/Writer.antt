-- ===== src/Vita49/Writer.antt =====
-- `ByteWriter` of packages/libfers/src/serial/vita49/vita49_serializer.h and .cpp.
-- A writer is the bytes written so far; memory is taken to suffice.
pub mod Laws
use fers.Base.{
  ℕ, zero, suc, ◌+◌, ◌-◌, ◌/◌, ◌%◌, ◌^◌, Bool, true, false, List, [], ◌∷◌, ◌++◌, ◌||◌, Result, ok,
  err, throw_if, ◌>>◌, length_error, invalid_argument, ltb, leb, length, replicate, logic_error,
  not, ◌==◌,
}
use fers.Base.Int.{ℤ, u16_of_ℤ}
use fers.Base.Bits.{low_bits, shr}
use fers.Floats.{Floats}

pub record ByteWriter : Type 0 where
  pub bytes : List ℕ

abbrev pub new_writer : ByteWriter
new_writer = record { bytes = [] }

unfoldable pub write_u16 : ℕ → ByteWriter → ByteWriter
write_u16 value w = record { bytes = w.bytes ++ low_bits (shr value 8) 8 ∷ low_bits value 8 ∷ [] }

unfoldable pub write_i16 : ℤ → ByteWriter → ByteWriter
write_i16 value = write_u16 (u16_of_ℤ value)

unfoldable pub write_u32 : ℕ → ByteWriter → ByteWriter
write_u32 value w = record {
  bytes =
      w.bytes
      ++ low_bits (shr value 24) 8
        ∷ low_bits (shr value 16) 8
        ∷ low_bits (shr value 8) 8
        ∷ low_bits value 8
        ∷ [];
}

unfoldable pub write_u64 : ℕ → ByteWriter → ByteWriter
write_u64 value w = write_u32 (low_bits value 32) (write_u32 (low_bits (shr value 32) 32) w)

unfoldable pub write_bytes : List ℕ → ByteWriter → ByteWriter
write_bytes bytes w = record { bytes = w.bytes ++ bytes }

-- The loop over the characters: one above 0x7F throws.
unfoldable pub check_ascii : List ℕ → Result (Unit {0})
check_ascii [] = ok tt
check_ascii (ch ∷ chs) =
    let rest = check_ascii chs in elim (ltb 0x7F ch) [ true ↦ err invalid_argument | false ↦ rest ]

-- `while (size % 4 != 0) push_back(0)`: at most three rounds.
unfoldable pub pad : ℕ → List ℕ → List ℕ
pad zero bytes = bytes
pad (suc fuel) bytes = elim (length bytes % 4 == 0) [
  | true ↦ bytes
  | false ↦ pad fuel (bytes ++ 0 ∷ [])
]

unfoldable pub write_ascii_metadata : List ℕ → ByteWriter → Result ByteWriter
write_ascii_metadata value w = do
  throw_if (leb (2 ^ 32 - 1) (length value)) length_error
  check_ascii value
  ok (record { bytes = pad 3 ((w.bytes ++ value) ++ 0 ∷ []) })

unfoldable pub checked_word_count : ℕ → Result ℕ
checked_word_count byte_count = do
  throw_if (not (byte_count % 4 == 0)) logic_error
  throw_if (ltb (2 ^ 16 - 1) (byte_count / 4)) length_error
  ok (byte_count / 4)

module _ (F : Floats) where
  open F use {R, bits}

  unfoldable pub write_f64 : R → ByteWriter → ByteWriter
  write_f64 value = write_u64 (bits value)
