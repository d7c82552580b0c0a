-- ===== src/Examples/Ids.antt =====
-- Numbers of three objects, the second of a debug object.
use fers.Base.{◌+◌, ◌*◌, ◌^◌, ◌≡◌, refl, List, [], ◌∷◌, arith}
use fers.SimId.{
  ObjectType, transmitter, receiver, debug, object_type_code, generate_id, keep_result,
  generate_all,
}
use fers.SimId.Unique.{Rising, generate_all-Rising}

abbrev three : List ObjectType
three = transmitter ∷ debug ∷ receiver ∷ []

numbered : generate_all three 1 ≡ (2 * 2 ^ 48 + 1) ∷ (65535 * 2 ^ 48 + 2) ∷ (3 * 2 ^ 48 + 3) ∷ []
unfolding generate_all generate_id keep_result object_type_code
numbered = refl

generate_all-Rising_example : Rising 1 (generate_all three 1)
generate_all-Rising_example = generate_all-Rising three 1 (omega arith)
