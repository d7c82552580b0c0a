-- ===== src/Vita49/Registry/Allocation.antt =====
-- The search for a free stream number.
use mathlib.Core.Bool.{false≢true}
use fers.Base.{
  ap, sym, ◌∙◌, ℕ, zero, suc, ◌+◌, ◌-◌, ◌%◌, ◌^◌, ◌≤◌, ◌<◌, ◌≡◌, refl, ◌≢◌, true, false, List, [],
  ◌∷◌, ok, arith, length, ◌==◌, if◌then◌else◌, Bool-cases, inl, inr,
}
use fers.Base.Bits.{low_bits}
use fers.Vita49.Registry.{Key, contains_id, allocate, max_attempts, initial_stream_id}

-- The numbers that the search visits from `start + 1` on: 1, 2, … , 2^31, and then 1 again.
abbrev pub visit : ℕ → ℕ → ℕ
visit start k = (start + k) % 2 ^ 31 + 1

pub initial_stream_id_range :
    (key : Key) → (0 < initial_stream_id key) × (initial_stream_id key < 2 ^ 31)
unfolding initial_stream_id
initial_stream_id_range key = ground arith

visit_ne : (start k j : ℕ) → k < j → j < k + 2 ^ 31 → visit start j ≢ visit start k
visit_ne start k j h lim = omega arith

visit-suc : (start k : ℕ) → low_bits (visit start k) 31 + 1 ≡ visit start (k + 1)
visit-suc start k = omega arith

module _ {V : Type 0} where
  -- `taken` without the entries of one number.
  erase_id : ℕ → List (ℕ × V) → List (ℕ × V)
  erase_id id [] = []
  erase_id id ((i, v) ∷ m) = if i == id then erase_id id m else (i, v) ∷ erase_id id m

  length-erase_id-le : (id : ℕ) (m : List (ℕ × V)) → length (erase_id id m) ≤ length m
  unfolding erase_id
  length-erase_id-le id [] = omega arith
  length-erase_id-le id ((i, v) ∷ m) = ground (arith, length-erase_id-le id m)

  length-erase_id :
      (id : ℕ) (m : List (ℕ × V)) → contains_id id m ≡ true → length (erase_id id m) < length m
  unfolding erase_id contains_id
  length-erase_id id [] h = ground arith
  length-erase_id id ((i, v) ∷ m) h = ground (arith, length-erase_id-le id m, length-erase_id id m)

  contains-erase_id :
      (id other : ℕ) (m : List (ℕ × V))
      → other ≢ id
      → contains_id other (erase_id id m) ≡ contains_id other m
  unfolding erase_id contains_id
  contains-erase_id id other [] ne = refl
  contains-erase_id id other ((i, v) ∷ m) ne = ground (arith, contains-erase_id id other m ne)

  -- Among more numbers than are taken one is free.
  free_exists :
      (n start k : ℕ) (taken : List (ℕ × V))
      → n ≤ 2 ^ 31
      → length taken < n
      → (j : ℕ) × (k ≤ j) × (j < k + n) × (contains_id (visit start j) taken ≡ false)
  free_exists zero start k taken lim h = absurd (omega arith)
  free_exists (suc n) start k taken lim h = elim (Bool-cases (contains_id (visit start k) taken)) [
    | inr free ↦ (k, omega arith, omega arith, free)
    | inl used ↦
        let shorter = length-erase_id (visit start k) taken used in
        let (j, low, high, free) =
          free_exists n start (k + 1) (erase_id (visit start k) taken) (omega arith)
            (omega arith) in
        (
          j,
          omega arith,
          omega arith,
          ground (
            arith,
            contains-erase_id (visit start k) (visit start j) taken
                (visit_ne start k j (omega arith) (omega arith)),
          ),
        )
  ]

  allocate_free :
      (n start k : ℕ) (taken : List (ℕ × V))
      → contains_id (visit start k) taken ≡ false
      → allocate (suc n) (visit start k) taken ≡ ok (visit start k)
  unfolding allocate
  allocate_free n start k taken free = ground arith

  allocate_used :
      (n start k : ℕ) (taken : List (ℕ × V))
      → contains_id (visit start k) taken ≡ true
      → allocate (suc n) (visit start k) taken ≡ allocate n (visit start (k + 1)) taken
  unfolding allocate
  allocate_used n start k taken used = ground (arith, visit-suc start k)

  -- The search returns a free number when one is among those that it visits.
  allocate-visit :
      (n start k j : ℕ) (taken : List (ℕ × V))
      → k ≤ j
      → j < k + n
      → contains_id (visit start j) taken ≡ false
      → (id : ℕ) × (allocate n (visit start k) taken ≡ ok id)
        × (0 < id)
        × (id ≤ 2 ^ 31)
        × (contains_id id taken ≡ false)
  allocate-visit zero start k j taken low high free = absurd (omega arith)
  allocate-visit (suc n) start k j taken low high free =
      elim (Bool-cases (contains_id (visit start k) taken)) [
        | inr here ↦
            (visit start k, allocate_free n start k taken here, omega arith, omega arith, here)
        | inl used ↦
            let apart : k ≢ j = λ e.
              false≢true (sym free ∙ ap (λ i. contains_id (visit start i) taken) (sym e) ∙ used) in
            rw (allocate_used n start k taken used)
              (allocate-visit n start (k + 1) j taken (omega arith) (omega arith) free)
      ]

  -- With fewer numbers taken than attempts the search returns a number that is free, not zero, and
  -- at most 2^31, from any start that a key can hash to.
  pub allocate_returns :
      (id : ℕ) (taken : List (ℕ × V))
      → 0 < id
      → id < 2 ^ 31
      → length taken < max_attempts
      → (free : ℕ) × (allocate max_attempts id taken ≡ ok free)
        × (0 < free)
        × (free ≤ 2 ^ 31)
        × (contains_id free taken ≡ false)
  allocate_returns id taken pos small h =
      let (j, low, high, free) = free_exists max_attempts (id - 1) 0 taken (omega arith) h in
      let e : visit (id - 1) 0 ≡ id = omega arith in
      rw e at (allocate-visit max_attempts (id - 1) 0 j taken low high free)
