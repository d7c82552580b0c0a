-- ===== src/Vita49/Serializer/Layout.antt =====
-- The byte layout of a packet, and an independent reader of signal packets.
use mathlib.Core.List.{append_assoc, append-nil}
use fers.Base.{
  ℕ, zero, suc, ◌-◌, ◌*◌, ◌^◌, ◌<◌, ◌≡◌, refl, List, [], ◌∷◌, ◌++◌, Option, none, some, arith,
  length, length-append,
}
use fers.Base.Int.{ℤ, IsI16, u16_of_ℤ, i16_of_word, u16_of_ℤ-lt, i16_of_word-u16_of_ℤ}
use fers.Base.Bits.{low_bits}
use fers.Vita49.Types.{Timestamp}
use fers.Vita49.Writer.{ByteWriter}
use fers.Vita49.Writer.Laws.{
  read_be, be16, be32, be64, written, read_be-be16, read_be-be32, read_be-be64, length-be16,
  length-be32, length-be64,
}
use fers.Vita49.Serializer.{write_prologue, write_items}

unfoldable pub prologue_bytes : ℕ → ℕ → ℕ → Timestamp → List ℕ
prologue_bytes header stream_id class_id timestamp =
    be32 header
    ++ (be32 stream_id
        ++ (be64 class_id
            ++ (be32 timestamp.integer_seconds ++ be64 timestamp.fractional_picoseconds)))

unfoldable pub item_bytes : List ℤ → List ℕ
item_bytes [] = []
item_bytes (item ∷ items) = be16 (u16_of_ℤ item) ++ item_bytes items

pub write_prologue_lem :
    (header stream_id class_id : ℕ) (timestamp : Timestamp) (w : ByteWriter)
    → (write_prologue header stream_id class_id timestamp w).bytes
      ≡ w.bytes ++ prologue_bytes header stream_id class_id timestamp
unfolding write_prologue prologue_bytes
write_prologue_lem header stream_id class_id timestamp w = simp (written, append_assoc)

pub write_items_lem :
    (items : List ℤ) (w : ByteWriter) → (write_items items w).bytes ≡ w.bytes ++ item_bytes items
unfolding write_items item_bytes
write_items_lem [] w = simp append-nil
write_items_lem (item ∷ items) w = simp (write_items_lem items, written, append_assoc)

pub length-prologue_bytes :
    (header stream_id class_id : ℕ) (timestamp : Timestamp)
    → length (prologue_bytes header stream_id class_id timestamp) ≡ 28
unfolding prologue_bytes
length-prologue_bytes header stream_id class_id timestamp =
    simp (length-append, length-be32, length-be64)

pub length-item_bytes : (items : List ℤ) → length (item_bytes items) ≡ length items * 2
unfolding item_bytes
length-item_bytes [] = refl
length-item_bytes (item ∷ items) = omega (
  arith,
  length-append (be16 (u16_of_ℤ item)) (item_bytes items),
  length-be16 (u16_of_ℤ item),
  length-item_bytes items,
)

-- A reader for signal packets, which takes the packet's size from its header alone.
pub record SignalView : Type 0 where
  pub header : ℕ
  pub stream_id : ℕ
  pub class_id : ℕ
  pub timestamp : Timestamp
  pub items : List ℤ
  pub trailer : ℕ

infixl 5 ◌>>=◌
abbrev pub ◌>>=◌ : {A B : Type 0} → Option A → (A → Option B) → Option B
none >>= f = none
some a >>= f = f a

unfoldable pub read_items : ℕ → List ℕ → Option (List ℤ × List ℕ)
read_items zero bytes = some ([], bytes)
read_items (suc n) bytes = do
  (word, rest) ← read_be 2 0 bytes
  (items, rest') ← read_items n rest
  some (i16_of_word word ∷ items, rest')

unfoldable pub read_signal : List ℕ → Option (SignalView × List ℕ)
read_signal bytes = do
  (header, r1) ← read_be 4 0 bytes
  (stream_id, r2) ← read_be 4 0 r1
  (class_id, r3) ← read_be 8 0 r2
  (seconds, r4) ← read_be 4 0 r3
  (picoseconds, r5) ← read_be 8 0 r4
  (items, r6) ← read_items (2 * (low_bits header 16 - 8)) r5
  (trailer, r7) ← read_be 4 0 r6
  some (
    record {
      header = header;
      stream_id = stream_id;
      class_id = class_id;
      timestamp = record { integer_seconds = seconds; fractional_picoseconds = picoseconds };
      items = items;
      trailer = trailer;
    },
    r7,
  )

abbrev pub AllI16 : List ℤ → Type 0
AllI16 [] = Unit {0}
AllI16 (z ∷ zs) = IsI16 z × AllI16 zs

read_items-item_bytes :
    (items : List ℤ) (rest : List ℕ)
    → AllI16 items
    → read_items (length items) (item_bytes items ++ rest) ≡ some (items, rest)
unfolding read_items item_bytes
read_items-item_bytes [] rest h = refl
read_items-item_bytes (z ∷ zs) rest h =
    rw
      (
        append_assoc (be16 (u16_of_ℤ z)) (item_bytes zs) rest,
        read_be-be16 (u16_of_ℤ z) (item_bytes zs ++ rest) (u16_of_ℤ-lt z),
        read_items-item_bytes zs rest h.1,
        i16_of_word-u16_of_ℤ z h.0,
      )
      refl

pub read_signal_lem :
    (header stream_id class_id : ℕ) (timestamp : Timestamp) (items : List ℤ) (trailer : ℕ)
    (rest : List ℕ)
    → header < 2 ^ 32
    → stream_id < 2 ^ 32
    → class_id < 2 ^ 64
    → timestamp.integer_seconds < 2 ^ 32
    → timestamp.fractional_picoseconds < 2 ^ 64
    → trailer < 2 ^ 32
    → AllI16 items
    → 2 * (low_bits header 16 - 8) ≡ length items
    → read_signal (
        prologue_bytes header stream_id class_id timestamp
        ++ (item_bytes items ++ (be32 trailer ++ rest)))
      ≡ some (
        record {
          header = header;
          stream_id = stream_id;
          class_id = class_id;
          timestamp = timestamp;
          items = items;
          trailer = trailer;
        },
        rest,
      )
unfolding read_signal prologue_bytes
read_signal_lem header stream_id class_id timestamp items trailer rest h1 h2 h3 h4 h5 h6 h7 e =
    simp append_assoc (
      rw
        (
          read_be-be32 header _ h1,
          read_be-be32 stream_id _ h2,
          read_be-be64 class_id _ h3,
          read_be-be32 timestamp.integer_seconds _ h4,
          read_be-be64 timestamp.fractional_picoseconds _ h5,
          e,
          read_items-item_bytes items _ h7,
          read_be-be32 trailer _ h6,
        )
        refl)
