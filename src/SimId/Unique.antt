-- ===== src/SimId/Unique.antt =====
-- No two calls of the generator get the same number.
use mathlib.Core.Path.{subst}
use fers.Base.{
  ℕ, suc, ◌+◌, ◌*◌, ◌^◌, ◌%◌, ◌<◌, ◌≤◌, ◌≡◌, refl, sym, List, [], ◌∷◌, Result, ok, err, arith,
  length,
}
use fers.Base.Bits.{low_bits, bit_or-field}
use fers.SimId.{
  ObjectType, unknown, platform, transmitter, receiver, target, antenna, waveform, timing, mesh,
  material, debug, object_type_code, max_counter_value, generate_id, get_type, get_counter,
  keep_result, generate_all,
}

object_type_code-fits : (type : ObjectType) → object_type_code type < 65536
unfolding object_type_code
object_type_code-fits unknown = omega arith
object_type_code-fits platform = omega arith
object_type_code-fits transmitter = omega arith
object_type_code-fits receiver = omega arith
object_type_code-fits target = omega arith
object_type_code-fits antenna = omega arith
object_type_code-fits waveform = omega arith
object_type_code-fits timing = omega arith
object_type_code-fits mesh = omega arith
object_type_code-fits material = omega arith
object_type_code-fits debug = omega arith

-- A number has the type and the count that it was made from.
pub generate_id-parts :
    (type : ObjectType) (counter id : ℕ)
    → (generate_id type counter).0 ≡ ok id
    → (get_type id ≡ object_type_code type)
      × (get_counter id ≡ counter)
      × (counter < max_counter_value)
unfolding generate_id get_type get_counter
generate_id-parts type counter id h =
    let word = object_type_code type * 2 ^ 48 % 2 ^ 64 in
    let joined =
      bit_or-field 48 word (low_bits counter 48) (omega (arith, object_type_code-fits type))
        (omega arith) in
    ground (arith, joined, object_type_code-fits type)

-- The counts of numbers rise, from one that is not below a bound.
abbrev pub Rising : ℕ → List ℕ → Type 0
Rising bound [] = Unit {0}
Rising bound (id ∷ ids) = (bound ≤ get_counter id) × Rising (suc (get_counter id)) ids

Rising-lower : (a b : ℕ) (ids : List ℕ) → a ≤ b → Rising b ids → Rising a ids
Rising-lower a b [] h rising = tt
Rising-lower a b (id ∷ ids) h rising = (omega (arith, h, rising.0), rising.1)

keep_result-Rising :
    (counter : ℕ) (made : Result ℕ) (ids : List ℕ)
    → ((id : ℕ) → made ≡ ok id → get_counter id ≡ counter)
    → Rising (suc counter) ids
    → Rising counter (keep_result made ids)
unfolding keep_result
keep_result-Rising counter (ok id) ids h rising =
    let e = h id refl in (omega (arith, e), subst (λ n. Rising (suc n) ids) (sym e) rising)
keep_result-Rising counter (err e) ids h rising =
    Rising-lower counter (suc counter) ids (omega arith) rising

generate_id-counter :
    (type : ObjectType) (counter : ℕ)
    → suc counter < 2 ^ 64
    → (generate_id type counter).1 ≡ suc counter
unfolding generate_id
generate_id-counter type counter h = omega (arith, h)

-- The numbers that any sequence of calls gets, for whatever types, have counts that rise from the
-- counter's value, so that no two are the same, also where calls after the 48 bits are used up throw.
-- There are fewer calls than would wrap the 64-bit counter.
pub generate_all-Rising :
    (types : List ObjectType) (counter : ℕ)
    → counter + length types + 1 < 2 ^ 64
    → Rising counter (generate_all types counter)
unfolding generate_all
generate_all-Rising [] counter h = tt
generate_all-Rising (type ∷ types) counter h =
    keep_result-Rising counter _ _ (λ id made. (generate_id-parts type counter id made).1)
      (subst (λ n. Rising (suc counter) (generate_all types n))
        (sym (generate_id-counter type counter (omega arith)))
        (generate_all-Rising types (suc counter) (omega arith)))
