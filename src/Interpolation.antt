-- ===== src/Interpolation.antt =====
-- Tables of samples of packages/libfers/src/interpolation/interpolation_set.h and .cpp, for values of
-- type double. The ordered map is a list by ascending x.
pub mod Lookup
use fers.Base.{
  true, false, ◌≡◌, List, [], ◌∷◌, Option, none, some, Result, ok, err, throw_if, invalid_argument,
  ◌>>◌, if◌then◌else◌,
}
use fers.Floats.{Floats}

module _ (F : Floats) where
  open F use {R, double}

  pub record Sample : Type 0 where
    pub x : R
    pub y : R

  abbrev pub InterpSetData : Type 0
  InterpSetData = List Sample

  -- `std::map::insert`: a sample at an x that is there already changes nothing.
  unfoldable pub insert_sample : Sample → InterpSetData → InterpSetData
  insert_sample s [] = s ∷ []
  insert_sample s (t ∷ data_points) =
      let rest = insert_sample s data_points in
      if double.lt s.x t.x
      then s ∷ t ∷ data_points
      else if double.lt t.x s.x
      then t ∷ rest
      else t ∷ data_points

  unfoldable pub interpolate : R → Sample → Sample → R
  interpolate x_value prev next =
      double.add
        (double.div (double.mul next.y (double.sub x_value prev.x)) (double.sub next.x prev.x))
        (double.div (double.mul prev.y (double.sub next.x x_value)) (double.sub next.x prev.x))

  -- The search from the sample `prev` on, which is left of `x_value`.
  unfoldable pub value_after : R → Sample → InterpSetData → R
  value_after x_value prev [] = prev.y
  value_after x_value prev (next ∷ data_points) =
      let rest = value_after x_value next data_points in
      if double.lt next.x x_value
      then rest
      else if double.eq next.x x_value
      then next.y
      else interpolate x_value prev next

  unfoldable pub value : R → InterpSetData → Option R
  value x_value [] = none
  value x_value (first ∷ data_points) =
      some (if double.lt first.x x_value then value_after x_value first data_points else first.y)

  unfoldable pub divide_all : R → InterpSetData → InterpSetData
  divide_all a [] = []
  divide_all a (s ∷ data_points) = record s { y = double.div s.y a } ∷ divide_all a data_points

  unfoldable pub divide : R → InterpSetData → Result InterpSetData
  divide a data_points = do
    throw_if (double.eq a (double.of_ℕ 0)) invalid_argument
    ok (divide_all a data_points)
