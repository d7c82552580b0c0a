-- ===== src/Examples/Queues.antt =====
-- A priority queue in which the examples run: a list, from which the first of the earliest events is
-- taken.
use fers.Base.{
  ℕ, ◌+◌, ◌≡◌, refl, Bool, false, Option, none, some, List, [], ◌∷◌, if◌then◌else◌, arith,
}
use fers.Simulation.Events.{Event, occurs_after, sum_by, sum_by-zero, PriorityQueue}
use fers.Examples.Fixed.{numbers, fixed-asymmetric, fixed-transitive}

abbrev Events : Type 0
Events = List (Event ℕ)

abbrev after : Event ℕ → Event ℕ → Bool
after = occurs_after numbers

abbrev choose : Event ℕ → Option (Event ℕ × Events) → Event ℕ × Events
choose x none = (x, [])
choose x (some (y, ys)) = if after x y then (y, x ∷ ys) else (x, y ∷ ys)

abbrev take_first : Events → Option (Event ℕ × Events)
take_first [] = none
take_first (x ∷ xs) = some (choose x (take_first xs))

abbrev sooner : Event ℕ → Event ℕ → ℕ
sooner x y = if after x y then 1 else 0

-- What a choice gives, for a list that has been searched.
choose-sum :
    (f : Event ℕ → ℕ) (x : Event ℕ) (found : Option (Event ℕ × Events)) (xs : Events)
    → ((y : Event ℕ) (ys : Events) → found ≡ some (y, ys) → sum_by f xs ≡ f y + sum_by f ys)
    → (found ≡ none → xs ≡ [])
    → sum_by f (x ∷ xs) ≡ f (choose x found).0 + sum_by f (choose x found).1
choose-sum f x none xs h g = ground (arith, g refl)
choose-sum f x (some (y, ys)) xs h g = ground (arith, h y ys refl)

pub take_first-none : (xs : Events) → take_first xs ≡ none → xs ≡ []
take_first-none [] h = refl
take_first-none (x ∷ xs) h = ground arith

pub take_first-sum :
    (f : Event ℕ → ℕ) (xs : Events) (y : Event ℕ) (ys : Events)
    → take_first xs ≡ some (y, ys)
    → sum_by f xs ≡ f y + sum_by f ys
take_first-sum f [] y ys h = ground arith
take_first-sum f (x ∷ xs) y ys h =
    ground (arith, choose-sum f x (take_first xs) xs (take_first-sum f xs) (take_first-none xs))

sooner-later :
    (x z : Event ℕ) (zs : Events)
    → after x z ≡ false
    → sum_by (sooner z) zs ≡ 0
    → sum_by (sooner x) zs ≡ 0
unfolding occurs_after
sooner-later x z zs h =
    sum_by-zero (sooner x) (sooner z) zs
      (λ w g. ground (arith, fixed-transitive w.timestamp z.timestamp x.timestamp))

choose-first :
    (x : Event ℕ) (found : Option (Event ℕ × Events))
    → ((y : Event ℕ) (ys : Events) → found ≡ some (y, ys) → sum_by (sooner y) ys ≡ 0)
    → sum_by (sooner (choose x found).0) (choose x found).1 ≡ 0
unfolding occurs_after
choose-first x none h = refl
choose-first x (some (y, ys)) h =
    ground (arith, h y ys refl, sooner-later x y ys, fixed-asymmetric y.timestamp x.timestamp)

pub take_first-first :
    (xs : Events) (y : Event ℕ) (ys : Events)
    → take_first xs ≡ some (y, ys)
    → sum_by (sooner y) ys ≡ 0
take_first-first [] y ys h = ground arith
take_first-first (x ∷ xs) y ys h =
    ground (arith, choose-first x (take_first xs) (take_first-first xs))

abbrev pub event_list : PriorityQueue after
event_list = record {
  Queue = Events;
  push = λ e queue. e ∷ queue;
  pop = take_first;
  contents = λ queue. queue;
  contents-push = λ f e queue. refl;
  pop-none = take_first-none;
  pop-some = λ f e queue rest h. take_first-sum f queue e rest h;
  pop-first = λ e queue rest h. take_first-first queue e rest h;
}
