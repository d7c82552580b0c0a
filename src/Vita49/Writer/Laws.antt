-- ===== src/Vita49/Writer/Laws.antt =====
-- Reading back what a writer wrote: `read_*` are an independent description of the byte order.
use mathlib.Core.List.{append_assoc, append-nil}
use fers.Base.{
  ℕ, zero, suc, ◌+◌, ◌-◌, ◌*◌, ◌/◌, ◌%◌, ◌^◌, ◌≤◌, ◌<◌, ◌≡◌, refl, sym, ap, ◌∙◌, List, [], ◌∷◌,
  ◌++◌, Option, none, some, ok, err, arith, length, length-append, replicate, if◌then◌else◌,
  length-replicate, invalid_argument, Bool-cases, inl, inr, ◌==◌,
}
use fers.Base.Int.{ℤ, u16_of_ℤ}
use fers.Vita49.Writer.{
  ByteWriter, write_u16, write_i16, write_u32, write_u64, write_bytes, check_ascii, pad,
  write_ascii_metadata,
}

-- An unsigned big-endian integer of `n` bytes at the front of a byte sequence.
unfoldable pub read_be : ℕ → ℕ → List ℕ → Option (ℕ × List ℕ)
read_be zero acc bytes = some (acc, bytes)
read_be (suc n) acc [] = none
read_be (suc n) acc (b ∷ bytes) = read_be n (acc * 256 + b) bytes

-- The bytes that each write appends.
unfoldable pub be16 : ℕ → List ℕ
be16 v = v / 2 ^ 8 % 2 ^ 8 ∷ v % 2 ^ 8 ∷ []

unfoldable pub be32 : ℕ → List ℕ
be32 v = v / 2 ^ 24 % 2 ^ 8 ∷ v / 2 ^ 16 % 2 ^ 8 ∷ v / 2 ^ 8 % 2 ^ 8 ∷ v % 2 ^ 8 ∷ []

unfoldable pub be64 : ℕ → List ℕ
be64 v = be32 (v / 2 ^ 32 % 2 ^ 32) ++ be32 (v % 2 ^ 32)

pub write_u16_lem : (v : ℕ) (w : ByteWriter) → (write_u16 v w).bytes ≡ w.bytes ++ be16 v
unfolding write_u16 be16
write_u16_lem v w = refl

pub write_i16_lem : (v : ℤ) (w : ByteWriter) → (write_i16 v w).bytes ≡ w.bytes ++ be16 (u16_of_ℤ v)
unfolding write_i16
write_i16_lem v w = write_u16_lem (u16_of_ℤ v) w

pub write_u32_lem : (v : ℕ) (w : ByteWriter) → (write_u32 v w).bytes ≡ w.bytes ++ be32 v
unfolding write_u32 be32
write_u32_lem v w = refl

pub write_u64_lem : (v : ℕ) (w : ByteWriter) → (write_u64 v w).bytes ≡ w.bytes ++ be64 v
unfolding write_u64 write_u32 be64 be32
write_u64_lem v w = append_assoc w.bytes (be32 (v / 2 ^ 32 % 2 ^ 32)) (be32 (v % 2 ^ 32))

pub write_bytes_lem : (bs : List ℕ) (w : ByteWriter) → (write_bytes bs w).bytes ≡ w.bytes ++ bs
unfolding write_bytes
write_bytes_lem bs w = refl

pub ruleset written = (write_u16_lem, write_i16_lem, write_u32_lem, write_u64_lem, write_bytes_lem)

-- A big-endian read gives back the value that was written, and leaves what follows.
pub read_be-be16 :
    (v : ℕ) (rest : List ℕ) → v < 2 ^ 16 → read_be 2 0 (be16 v ++ rest) ≡ some (v, rest)
unfolding read_be be16
read_be-be16 v rest h = ground arith

pub read_be-be32 :
    (v : ℕ) (rest : List ℕ) → v < 2 ^ 32 → read_be 4 0 (be32 v ++ rest) ≡ some (v, rest)
unfolding read_be be32
read_be-be32 v rest h = ground arith

pub read_be-be64 :
    (v : ℕ) (rest : List ℕ) → v < 2 ^ 64 → read_be 8 0 (be64 v ++ rest) ≡ some (v, rest)
unfolding read_be be64 be32
read_be-be64 v rest h = ground arith

pub length-be16 : (v : ℕ) → length (be16 v) ≡ 2
unfolding be16
length-be16 v = refl

pub length-be32 : (v : ℕ) → length (be32 v) ≡ 4
unfolding be32
length-be32 v = refl

pub length-be64 : (v : ℕ) → length (be64 v) ≡ 8
unfolding be64 be32
length-be64 v = refl

-- ASCII text without a zero byte, which would end it for a reader of terminated text.
abbrev pub IsPlainText : List ℕ → Type 0
IsPlainText [] = Unit {0}
IsPlainText (c ∷ cs) = (0 < c) × (c ≤ 0x7F) × IsPlainText cs

-- The zero bytes that bring `n` bytes to a multiple of four.
abbrev pub padding : ℕ → ℕ
padding n = 3 * n % 4

pad_lem :
    (fuel : ℕ) (bytes : List ℕ)
    → padding (length bytes) ≤ fuel
    → pad fuel bytes ≡ bytes ++ replicate (padding (length bytes)) 0
unfolding pad
pad_lem zero bytes h =
    let e : padding (length bytes) ≡ 0 = omega arith in rw e (sym (append-nil bytes))
pad_lem (suc fuel) bytes h = elim (Bool-cases (length bytes % 4 == 0)) [
  | inl full ↦
      let e : padding (length bytes) ≡ 0 = ground arith in
      rw (full, pad) (rw e (sym (append-nil bytes)))
  | inr short ↦
      let longer = length-append bytes (0 ∷ []) in
      let e : padding (length bytes) ≡ suc (padding (length (bytes ++ 0 ∷ []))) = ground arith in
      rw (short, pad)
        (rw e (
          pad_lem fuel (bytes ++ 0 ∷ []) (omega arith)
          ∙ append_assoc bytes (0 ∷ []) (replicate (padding (length (bytes ++ 0 ∷ []))) 0)))
]

pub check_ascii-IsPlainText : (cs : List ℕ) → IsPlainText cs → check_ascii cs ≡ ok tt
unfolding check_ascii
check_ascii-IsPlainText [] h = refl
check_ascii-IsPlainText (c ∷ cs) h = ground (arith, check_ascii-IsPlainText cs)

check_ascii_throws :
    (before after : List ℕ) (c : ℕ)
    → 0x7F < c
    → check_ascii (before ++ c ∷ after) ≡ err invalid_argument
unfolding check_ascii
check_ascii_throws [] after c h = ground arith
check_ascii_throws (b ∷ before) after c h = ground (arith, check_ascii_throws before after c h)

-- The text before the first zero byte.
unfoldable pub read_text : List ℕ → List ℕ
read_text [] = []
read_text (b ∷ bytes) = let rest = read_text bytes in if b == 0 then [] else b ∷ rest

read_text-append : (cs rest : List ℕ) → IsPlainText cs → read_text (cs ++ 0 ∷ rest) ≡ cs
unfolding read_text
read_text-append [] rest h = refl
read_text-append (c ∷ cs) rest h = ground (arith, read_text-append cs rest h.2)

-- Text of fewer than 2^32 - 1 bytes, each from 1 to 0x7F, is written after what the writer holds, with a terminator
-- and zero bytes up to a multiple of four, and a reader of terminated text gets it back.
pub write_ascii_metadata-read_text :
    (value : List ℕ) (w : ByteWriter)
    → IsPlainText value
    → length value < 2 ^ 32 - 1
    → (field : List ℕ) × (write_ascii_metadata value w ≡ ok (record { bytes = w.bytes ++ field }))
      × (length (w.bytes ++ field) % 4 ≡ 0)
      × (read_text field ≡ value)
      × (length field ≤ length value + 4)
unfolding write_ascii_metadata
write_ascii_metadata-read_text value w ascii h =
    (field, written_ok, aligned, read_text-append value _ ascii, short)
  where
    zeros : List ℕ
    zeros = replicate (padding (length ((w.bytes ++ value) ++ 0 ∷ []))) 0

    field : List ℕ
    field = value ++ 0 ∷ zeros

    regroup : ((w.bytes ++ value) ++ 0 ∷ []) ++ zeros ≡ w.bytes ++ field
    regroup = simp append_assoc

    padded : pad 3 ((w.bytes ++ value) ++ 0 ∷ []) ≡ w.bytes ++ field
    padded = pad_lem 3 ((w.bytes ++ value) ++ 0 ∷ []) (omega arith) ∙ regroup

    written_ok : write_ascii_metadata value w ≡ ok (record { bytes = w.bytes ++ field })
    written_ok = ground (arith, padded, check_ascii-IsPlainText value ascii)

    zeros_length : length zeros ≡ padding (length ((w.bytes ++ value) ++ 0 ∷ []))
    zeros_length = length-replicate (padding (length ((w.bytes ++ value) ++ 0 ∷ []))) 0

    short : length field ≤ length value + 4
    short = omega (arith, length-append value (0 ∷ zeros), zeros_length)

    aligned : length (w.bytes ++ field) % 4 ≡ 0
    aligned =
        omega (
          arith,
          ap length regroup,
          length-append ((w.bytes ++ value) ++ 0 ∷ []) zeros,
          zeros_length,
        )

-- A text of fewer than 2^32 - 1 bytes with a byte above 0x7F is refused.
pub write_ascii_metadata_throws :
    (before after : List ℕ) (c : ℕ) (w : ByteWriter)
    → 0x7F < c
    → length (before ++ c ∷ after) < 2 ^ 32 - 1
    → write_ascii_metadata (before ++ c ∷ after) w ≡ err invalid_argument
unfolding write_ascii_metadata
write_ascii_metadata_throws before after c w bad h =
    ground (arith, check_ascii_throws before after c)
