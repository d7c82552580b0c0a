-- ===== src/Examples/Tables.antt =====
-- A table of three samples that are put in out of order.
use fers.Base.{ℕ, ◌≡◌, refl, [], ◌∷◌, List, some, arith, inl, inr}
use fers.Interpolation.{Sample, value}
use fers.Interpolation.Lookup.{insert_all, here, there, Ascending, value-insert_all}
use fers.Examples.Fixed.{numbers}

abbrev sample : ℕ → ℕ → Sample numbers
sample x y = record { x = x; y = y }

abbrev samples : List (Sample numbers)
samples = sample 5 50 ∷ sample 2 20 ∷ sample 9 90 ∷ []

value-insert_all_example :
    Ascending numbers (insert_all numbers samples [])
    × (value numbers 2 (insert_all numbers samples []) ≡ some 20)
value-insert_all_example =
    value-insert_all numbers (λ a. ground arith) (λ a b c h g. ground arith) samples (sample 2 20)
      ((inr refl, (inl refl, tt)), ((inl refl, tt), (tt, tt))) (there here) refl
