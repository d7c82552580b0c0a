-- ===== src/Vita49/Registry/Invariant.antt =====
-- Stream numbers are given once: the registry's invariant and its calls.
use fers.Base.{
  ℕ, suc, ◌+◌, ◌^◌, ◌≤◌, ◌<◌, ◌≡◌, refl, ap, ◌↔◌, true, false, List, [], ◌∷◌, none, some, ok, arith,
  length, Option-cases, inl, inr,
}
use fers.Base.Text.{text_eq_iff}
use fers.Vita49.Descriptor.{ReceiverStreamDescriptor}
use fers.Vita49.Registry.{
  Key, key_eq, Registry, find_key, contains_id, emplace, max_attempts, initial_stream_id, key_of,
  register_stream, contains, empty_registry,
}
use fers.Vita49.Registry.Allocation.{initial_stream_id_range, allocate_returns}

pub key_eq_iff : (a b : Key) → (key_eq a b ≡ true) ↔ (a ≡ b)
unfolding key_eq
key_eq_iff a b =
    ground (arith, text_eq_iff a.receiver_name b.receiver_name, text_eq_iff a.mode b.mode)

abbrev mirror : List (Key × ℕ) → List (ℕ × Key)
mirror [] = []
mirror ((k, id) ∷ m) = (id, k) ∷ mirror m

abbrev Distinct {ℓ} : {V : Type ℓ} → List (ℕ × V) → Type 0
Distinct [] = Unit {0}
Distinct ((i, v) ∷ m) = (0 < i) × (i ≤ 2 ^ 31) × (contains_id i m ≡ false) × Distinct m

module _ {R : Type 0} where
  abbrev keys_of : List (ℕ × ReceiverStreamDescriptor R) → List (ℕ × Key)
  keys_of [] = []
  keys_of ((i, s) ∷ m) = (i, key_of s) ∷ keys_of m

  -- The three maps hold the same streams, whose numbers differ and are from 1 to 2^31.
  pub record Inv (r : Registry R) : Type 0 where
    pub mirrored : r.by_stream_id ≡ mirror r.by_key
    pub described : keys_of r.descriptors ≡ r.by_stream_id
    pub distinct : Distinct r.by_stream_id

  pub empty_registry-Inv : Inv empty_registry
  empty_registry-Inv = record { mirrored = refl; described = refl; distinct = tt }

length-mirror : (m : List (Key × ℕ)) → length (mirror m) ≡ length m
length-mirror [] = refl
length-mirror ((k, id) ∷ m) = ap suc (length-mirror m)

-- A number that is found is among the numbers.
contains_id-find_key :
    (key : Key) (id : ℕ) (m : List (Key × ℕ))
    → find_key key m ≡ some id
    → contains_id id (mirror m) ≡ true
unfolding find_key contains_id
contains_id-find_key key id [] h = cc
contains_id-find_key key id ((k, i) ∷ m) h = ground (arith, contains_id-find_key key id m)

-- Two keys with one number are one key.
find_key_injective :
    (a b : Key) (id : ℕ) (m : List (Key × ℕ))
    → Distinct (mirror m)
    → find_key a m ≡ some id
    → find_key b m ≡ some id
    → a ≡ b
unfolding find_key
find_key_injective a b id [] d h g = cc
find_key_injective a b id ((k, i) ∷ m) d h g = ground (
  arith,
  key_eq_iff k a,
  key_eq_iff k b,
  contains_id-find_key a id m,
  contains_id-find_key b id m,
  find_key_injective a b id m d.3,
)

in_range :
    (id : ℕ) (m : List (ℕ × Key)) → Distinct m → contains_id id m ≡ true → (0 < id) × (id ≤ 2 ^ 31)
unfolding contains_id
in_range id [] d h = cc
in_range id ((i, v) ∷ m) d h = ground (arith, in_range id m d.3)

module _ {R : Type 0} where
  -- What a registration leads to.
  pub record Registered (stream : ReceiverStreamDescriptor R) (r : Registry R) (id : ℕ)
      (r' : Registry R) : Type 0 where
    pub invariant : Inv r'
    pub found : find_key (key_of stream) r'.by_key ≡ some id
    pub positive : 0 < id
    pub bounded : id ≤ 2 ^ 31
    pub known : contains id r' ≡ true
    pub grows : length r'.by_key ≤ length r.by_key + 1

  register_known :
      (stream : ReceiverStreamDescriptor R) (r : Registry R) (id : ℕ)
      → Inv r
      → find_key (key_of stream) r.by_key ≡ some id
      → Registered stream r id r
  unfolding contains
  register_known stream r id inv e =
      let known : contains_id id r.by_stream_id ≡ true =
        rw inv.mirrored (contains_id-find_key (key_of stream) id r.by_key e) in
      let range = in_range id r.by_stream_id inv.distinct known in
      record {
        invariant = inv;
        found = e;
        positive = range.0;
        bounded = range.1;
        known = known;
        grows = omega arith;
      }

  register_new :
      (stream : ReceiverStreamDescriptor R) (r : Registry R) (id : ℕ)
      → Inv r
      → 0 < id
      → id ≤ 2 ^ 31
      → contains_id id r.by_stream_id ≡ false
      → Registered stream r id (emplace r stream id)
  unfolding emplace find_key contains contains_id
  register_new stream r id inv pos le free =
      let same = (key_eq_iff (key_of stream) (key_of stream)).1 refl in
      record {
        invariant = record {
          mirrored = ap (λ m. (id, key_of stream) ∷ m) inv.mirrored;
          described = ap (λ m. (id, key_of stream) ∷ m) inv.described;
          distinct = (pos, le, free, inv.distinct);
        };
        found = ground arith;
        positive = pos;
        bounded = le;
        known = ground arith;
        grows = omega arith;
      }

  -- A registry with fewer than 2^31 - 1 streams registers any stream. The invariant holds again; the
  -- stream's key has the number that is returned, which is from 1 to 2^31 and known to the registry;
  -- and at most one stream is added.
  pub register_stream-Registered :
      (stream : ReceiverStreamDescriptor R) (r : Registry R)
      → Inv r
      → length r.by_key < max_attempts
      → (id : ℕ) × (r' : Registry R) × (register_stream stream r ≡ ok (id, r'))
        × Registered stream r id r'
  unfolding register_stream emplace
  register_stream-Registered stream r inv h =
      elim (Option-cases (find_key (key_of stream) r.by_key)) [
        | inr (id, e) ↦ (id, r, ground arith, register_known stream r id inv e)
        | inl e ↦
            let same : length r.by_stream_id ≡ length r.by_key =
              rw inv.mirrored (length-mirror r.by_key) in
            let range = initial_stream_id_range (key_of stream) in
            let (id, got, pos, le, free) =
              allocate_returns (initial_stream_id (key_of stream)) r.by_stream_id range.0 range.1
                (omega arith) in
            (id, emplace r stream id, ground arith, register_new stream r id inv pos le free)
      ]

  kept :
      (key : Key) (stream : ReceiverStreamDescriptor R) (r : Registry R) (j id : ℕ)
      → find_key key r.by_key ≡ some j
      → find_key (key_of stream) r.by_key ≡ none
      → find_key key ((key_of stream, id) ∷ r.by_key) ≡ some j
  unfolding find_key
  kept key stream r j id old new = ground (arith, key_eq_iff (key_of stream) key)

  -- A registration does not change the number of a key that has one.
  pub register_stream-find_key :
      (stream : ReceiverStreamDescriptor R) (r r' : Registry R) (id : ℕ) (key : Key) (j : ℕ)
      → register_stream stream r ≡ ok (id, r')
      → find_key key r.by_key ≡ some j
      → find_key key r'.by_key ≡ some j
  unfolding register_stream emplace
  register_stream-find_key stream r r' id key j call old = ground (arith, kept key stream r j id)
