-- ===== src/Simulation/Events.antt =====
-- The events of packages/libfers/src/core/sim_events.h, and the priority queue that holds them. The
-- queue is the standard library's, an interface here: which of several earliest events comes first
-- is not said.
use fers.Base.{
  ℕ, ◌+◌, ◌≡◌, refl, Bool, List, [], ◌∷◌, ◌++◌, Option, none, some, arith, if◌then◌else◌,
}
use fers.Floats.{Floats}

pub data EventType : Type 0 where
  tx_pulsed_start rx_pulsed_window_start rx_pulsed_window_end : EventType
  tx_streaming_start tx_streaming_end rx_streaming_start rx_streaming_end : EventType

-- `source_object` is the address of a transmitter or of a receiver, as the type says.
pub record Event (R : Type 0) : Type 0 where
  pub timestamp : R
  pub type : EventType
  pub source_object : ℕ

-- `EventComparator`: whether the first event occurs after the second.
unfoldable pub occurs_after : (F : Floats) → Event F.R → Event F.R → Bool
occurs_after F a b = F.double.lt b.timestamp a.timestamp

module _ {ℓ} {E : Type ℓ} where
  abbrev pub sum_by : (E → ℕ) → List E → ℕ
  sum_by f [] = 0
  sum_by f (x ∷ xs) = f x + sum_by f xs

  -- A measure vanishes on a list where one that bounds its support does.
  pub sum_by-zero :
      (f g : E → ℕ) (xs : List E)
      → ((x : E) → g x ≡ 0 → f x ≡ 0)
      → sum_by g xs ≡ 0
      → sum_by f xs ≡ 0
  sum_by-zero f g [] h none_left = refl
  sum_by-zero f g (x ∷ xs) h none_left =
      omega (arith, h x (omega arith), sum_by-zero f g xs h (omega arith))

  pub sum_by-append : (f : E → ℕ) (xs ys : List E) → sum_by f (xs ++ ys) ≡ sum_by f xs + sum_by f ys
  sum_by-append f [] ys = omega arith
  sum_by-append f (x ∷ xs) ys = omega (arith, sum_by-append f xs ys)

  -- A measure vanishes where two that bound it together do.
  pub sum_by-zero_both :
      (f g h : E → ℕ) (xs : List E)
      → ((x : E) → g x ≡ 0 → h x ≡ 0 → f x ≡ 0)
      → sum_by g xs ≡ 0
      → sum_by h xs ≡ 0
      → sum_by f xs ≡ 0
  sum_by-zero_both f g h [] bounds p q = refl
  sum_by-zero_both f g h (x ∷ xs) bounds p q = omega (
    arith,
    bounds x (omega (arith, p)) (omega (arith, q)),
    sum_by-zero_both f g h xs bounds (omega (arith, p)) (omega (arith, q)),
  )

-- `std::priority_queue`: what a pop takes is not after anything that stays. Contents are compared by
-- the sums of measures, that is as collections without order.
pub record PriorityQueue {ℓ} {E : Type ℓ} (after : E → E → Bool) : Type (ℓ + 1) where
  pub Queue : Type ℓ
  pub push : E → Queue → Queue
  pub pop : Queue → Option (E × Queue)
  pub contents : Queue → List E
  pub contents-push :
      (f : E → ℕ) (x : E) (q : Queue) → sum_by f (contents (push x q)) ≡ f x + sum_by f (contents q)
  pub pop-none : (q : Queue) → pop q ≡ none → contents q ≡ []
  pub pop-some :
      (f : E → ℕ) (x : E) (q rest : Queue)
      → pop q ≡ some (x, rest)
      → sum_by f (contents q) ≡ f x + sum_by f (contents rest)
  pub pop-first :
      (x : E) (q rest : Queue)
      → pop q ≡ some (x, rest)
      → sum_by (λ y. if after x y then 1 else 0) (contents rest) ≡ 0
