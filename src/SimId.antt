-- ===== src/SimId.antt =====
-- `SimIdGenerator` of packages/libfers/src/core/sim_id.h: numbers of 64 bits, of which the upper 16 are
-- the type of an object and the lower 48 a count.
pub mod Unique
use fers.Base.{
  ℕ, ◌+◌, ◌*◌, ◌^◌, ◌%◌, bit_or, List, [], ◌∷◌, Result, ok, err, ◌>>◌, throw_if, overflow_error,
  leb,
}
use fers.Base.Bits.{low_bits, shr}

pub data ObjectType : Type 0 where
  unknown platform transmitter receiver target antenna waveform timing mesh material : ObjectType
  debug : ObjectType

unfoldable pub object_type_code : ObjectType → ℕ
object_type_code unknown = 0
object_type_code platform = 1
object_type_code transmitter = 2
object_type_code receiver = 3
object_type_code target = 4
object_type_code antenna = 5
object_type_code waveform = 6
object_type_code timing = 7
object_type_code mesh = 8
object_type_code material = 9
object_type_code debug = 65535

abbrev pub max_counter_value : ℕ
max_counter_value = 281_474_976_710_655

-- `generateId`, and `generateDebugId` with the type `debug`: the result, and the counter after it.
unfoldable pub generate_id : ObjectType → ℕ → Result ℕ × ℕ
generate_id type counter = (
  (do
    throw_if (leb max_counter_value counter) overflow_error
    ok (bit_or (object_type_code type * 2 ^ 48 % 2 ^ 64) (low_bits counter 48))),
  (counter + 1) % 2 ^ 64,
)

unfoldable pub get_type : ℕ → ℕ
get_type id = shr id 48

unfoldable pub get_counter : ℕ → ℕ
get_counter id = low_bits id 48

unfoldable pub keep_result : Result ℕ → List ℕ → List ℕ
keep_result (ok id) ids = id ∷ ids
keep_result (err e) ids = ids

-- The numbers that calls get, one after the other; a call that throws gets none.
unfoldable pub generate_all : List ObjectType → ℕ → List ℕ
generate_all [] counter = []
generate_all (type ∷ types) counter =
    let made = generate_id type counter in keep_result made.0 (generate_all types made.1)
