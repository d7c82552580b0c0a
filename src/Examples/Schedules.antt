-- ===== src/Examples/Schedules.antt =====
-- Processed schedules at concrete inputs, with an insertion sort.
use fers.Base.{ℕ, ◌≡◌, refl, true, not, ◌||◌, List, [], ◌∷◌, arith, if◌then◌else◌, leb}
use fers.Schedule.{SchedulePeriod, process_raw_schedule}
use fers.Schedule.Coverage.{
  within, covers, StartsFrom, Sorted, Separate, process_raw_schedule-Separate,
  covers-process_raw_schedule,
}
use fers.Examples.Fixed.{fixed, numbers}

abbrev put_in :
    SchedulePeriod numbers → List (SchedulePeriod numbers) → List (SchedulePeriod numbers)
put_in p [] = p ∷ []
put_in p (q ∷ periods) = if leb p.start q.start then p ∷ q ∷ periods else q ∷ put_in p periods

abbrev insertion_sort : List (SchedulePeriod numbers) → List (SchedulePeriod numbers)
insertion_sort [] = []
insertion_sort (p ∷ periods) = put_in p (insertion_sort periods)

StartsFrom-put_in :
    (t : ℕ) (p : SchedulePeriod numbers) (periods : List (SchedulePeriod numbers))
    → leb t p.start ≡ true
    → StartsFrom numbers t periods
    → StartsFrom numbers t (put_in p periods)
StartsFrom-put_in t p [] h all = (h, tt)
StartsFrom-put_in t p (q ∷ periods) h all = ground (arith, StartsFrom-put_in q.start p periods)

put_in-Sorted :
    (p : SchedulePeriod numbers) (periods : List (SchedulePeriod numbers))
    → Sorted numbers periods
    → Sorted numbers (put_in p periods)
put_in-Sorted p [] all = tt
put_in-Sorted p (q ∷ periods) all = ground (arith, StartsFrom-put_in q.start p periods)

insertion_sort-Sorted :
    (periods : List (SchedulePeriod numbers)) → Sorted numbers (insertion_sort periods)
insertion_sort-Sorted [] = tt
insertion_sort-Sorted (p ∷ periods) =
    put_in-Sorted p (insertion_sort periods) (insertion_sort-Sorted periods)

covers-put_in :
    (t : ℕ) (p : SchedulePeriod numbers) (periods : List (SchedulePeriod numbers))
    → covers numbers t (put_in p periods) ≡ (within numbers t p || covers numbers t periods)
unfolding covers
covers-put_in t p [] = refl
covers-put_in t p (q ∷ periods) = ground (arith, covers-put_in t p periods)

covers-insertion_sort :
    (t : ℕ) (periods : List (SchedulePeriod numbers))
    → covers numbers t (insertion_sort periods) ≡ covers numbers t periods
unfolding covers
covers-insertion_sort t [] = refl
covers-insertion_sort t (p ∷ periods) =
    ground (arith, covers-put_in t p (insertion_sort periods), covers-insertion_sort t periods)

-- Two periods that overlap, out of order, an empty one and one after the end.
abbrev raw : List (SchedulePeriod numbers)
raw =
    record { start = 30; end = 50 }
    ∷ record { start = 10; end = 35 }
    ∷ record { start = 70; end = 70 }
    ∷ record { start = 200; end = 300 }
    ∷ []

process_raw_schedule-Separate_example :
    Separate numbers (process_raw_schedule numbers insertion_sort 0 100 raw)
process_raw_schedule-Separate_example =
    process_raw_schedule-Separate numbers insertion_sort 0 100 raw

order : (a b : ℕ) → fixed.lt a b ≡ not (fixed.le b a)
order a b = ground arith

transitive : (a b c : ℕ) → fixed.le a b ≡ true → fixed.le b c ≡ true → fixed.le a c ≡ true
transitive a b c h g = ground arith

either : (a b : ℕ) → (fixed.le a b || fixed.le b a) ≡ true
either a b = ground arith

covers-process_raw_schedule_example :
    covers numbers 33 (process_raw_schedule numbers insertion_sort 0 100 raw)
    ≡ covers numbers 33 raw
covers-process_raw_schedule_example =
    covers-process_raw_schedule numbers order transitive either insertion_sort insertion_sort-Sorted
      covers-insertion_sort 33 0 100 raw refl refl
