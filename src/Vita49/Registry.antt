-- ===== src/Vita49/Registry.antt =====
-- `StreamRegistry` of packages/libfers/src/serial/vita49/stream_registry.h and .cpp.
-- The unordered maps are association lists; their iteration order is never read.
pub mod Allocation
pub mod Invariant
use fers.Base.{
  ℕ, zero, suc, ◌+◌, ◌-◌, ◌*◌, ◌/◌, ◌%◌, ◌^◌, bit_xor, Bool, true, false, ◌&&◌, ◌||◌, List, [], ◌∷◌,
  ◌++◌, Option, none, some, Result, ok, err, runtime_error, out_of_range, ◌==◌, if◌then◌else◌,
}
use fers.Base.Bits.{low_bits}
use fers.Base.Text.{Text, text_eq}
use fers.Vita49.Descriptor.{ReceiverStreamDescriptor}

pub record Key : Type 0 where
  pub receiver_id : ℕ
  pub receiver_name : Text
  pub mode : Text

unfoldable pub key_eq : Key → Key → Bool
key_eq a b =
    a.receiver_id == b.receiver_id
    && text_eq a.receiver_name b.receiver_name
    && text_eq a.mode b.mode

-- `std::to_string`: 20 digits hold every 64-bit number.
decimal : ℕ → ℕ → Text
decimal zero n = []
decimal (suc fuel) n =
    let higher = decimal fuel (n / 10) in
    if n / 10 == 0 then (b'0' + n) ∷ [] else higher ++ (b'0' + n % 10) ∷ []

fnv1a32_from : ℕ → Text → ℕ
fnv1a32_from hash [] = hash
fnv1a32_from hash (ch ∷ chs) =
    fnv1a32_from (low_bits (bit_xor hash (low_bits ch 8) * 16777619) 32) chs

pub fnv1a32 : Text → ℕ
unfolding fnv1a32_from
fnv1a32 value = fnv1a32_from 2166136261 value

pub initial_stream_id : Key → ℕ
unfolding decimal fnv1a32
initial_stream_id key =
    let material =
      decimal 20 key.receiver_id ++ (b':' ∷ (key.receiver_name ++ (b':' ∷ key.mode))) in
    let stream_id = low_bits (fnv1a32 material) 31 in if stream_id == 0 then 1 else stream_id

-- `KeyHash`.
pub key_hash : Key → ℕ
key_hash key = initial_stream_id key

pub record Registry (R : Type 0) : Type 0 where
  pub by_key : List (Key × ℕ)
  pub by_stream_id : List (ℕ × Key)
  pub descriptors : List (ℕ × ReceiverStreamDescriptor R)

unfoldable pub find_key : Key → List (Key × ℕ) → Option ℕ
find_key key [] = none
find_key key ((k, id) ∷ m) = if key_eq k key then some id else find_key key m

unfoldable pub find_id {ℓ} : {V : Type ℓ} → ℕ → List (ℕ × V) → Option V
find_id id [] = none
find_id id ((i, v) ∷ m) = if i == id then some v else find_id id m

unfoldable pub contains_id {ℓ} : {V : Type ℓ} → ℕ → List (ℕ × V) → Bool
contains_id id [] = false
contains_id id ((i, v) ∷ m) = i == id || contains_id id m

-- The loop over `attempts`, with the attempts left.
unfoldable pub allocate {ℓ} : {V : Type ℓ} → ℕ → ℕ → List (ℕ × V) → Result ℕ
allocate zero stream_id taken = err runtime_error
allocate (suc attempts) stream_id taken =
    let id = if stream_id == 0 then 1 else stream_id in
    elim (contains_id id taken) [
      | false ↦ ok id
      | true ↦ allocate attempts (low_bits id 31 + 1) taken
    ]

abbrev pub max_attempts : ℕ
max_attempts = 0x7FFF_FFFF

module _ {R : Type 0} where
  abbrev pub key_of : ReceiverStreamDescriptor R → Key
  key_of stream = record {
    receiver_id = stream.receiver_id;
    receiver_name = stream.receiver_name;
    mode = stream.mode;
  }

  pub emplace : Registry R → ReceiverStreamDescriptor R → ℕ → Registry R
  emplace registry stream id = record {
    by_key = (key_of stream, id) ∷ registry.by_key;
    by_stream_id = (id, key_of stream) ∷ registry.by_stream_id;
    descriptors = (id, stream) ∷ registry.descriptors;
  }

  -- The stream's number, and the registry after the call.
  unfoldable pub register_stream : ReceiverStreamDescriptor R → Registry R → Result (ℕ × Registry R)
  unfolding emplace
  register_stream stream registry = elim (find_key (key_of stream) registry.by_key) [
    | some id ↦ ok (id, registry)
    | none ↦
        elim (allocate max_attempts (initial_stream_id (key_of stream)) registry.by_stream_id) [
          | ok id ↦ ok (id, emplace registry stream id)
          | err e ↦ err e
        ]
  ]

  unfoldable pub contains : ℕ → Registry R → Bool
  contains id registry = contains_id id registry.by_stream_id

  unfoldable pub descriptor : ℕ → Registry R → Result (ReceiverStreamDescriptor R)
  descriptor id registry = elim (find_id id registry.descriptors) [
    | none ↦ err out_of_range
    | some stream ↦ ok stream
  ]

  abbrev pub empty_registry : Registry R
  empty_registry = record { by_key = []; by_stream_id = []; descriptors = [] }
