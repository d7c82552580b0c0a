-- ===== src/Schedule.antt =====
-- `processRawSchedule` of packages/libfers/src/radar/schedule_period.cpp: the periods in which a radar
-- is active. The warnings are not modelled, and with them the check against the repetition interval.
pub mod Coverage
use fers.Base.{Bool, true, false, ◌||◌, List, [], ◌∷◌, if◌then◌else◌}
use fers.Floats.{Floats}

module _ (F : Floats) where
  open F use {R, double}

  pub record SchedulePeriod : Type 0 where
    pub start : R
    pub end : R

  -- The first step: empty periods and those outside the simulation are left out.
  unfoldable pub valid_periods : R → R → List SchedulePeriod → List SchedulePeriod
  valid_periods sim_start sim_end [] = []
  valid_periods sim_start sim_end (p ∷ periods) =
      let rest = valid_periods sim_start sim_end periods in
      if double.le p.end p.start
      then rest
      else if double.le p.end sim_start || double.le sim_end p.start
      then rest
      else p ∷ rest

  -- `std::max(merged.back().end, valid_periods[i].end)`.
  unfoldable pub later : R → R → R
  later a b = if double.lt a b then b else a

  -- The loop that merges, with the last merged period.
  unfoldable pub merge : SchedulePeriod → List SchedulePeriod → List SchedulePeriod
  merge back [] = back ∷ []
  merge back (p ∷ periods) = elim (double.le p.start back.end) [
    | true ↦ merge (record back { end = later back.end p.end }) periods
    | false ↦ back ∷ merge p periods
  ]

  -- `sort` is `std::ranges::sort` by the start times.
  module _ (sort : List SchedulePeriod → List SchedulePeriod) where
    unfoldable pub merge_all : List SchedulePeriod → List SchedulePeriod
    merge_all [] = []
    merge_all (p ∷ periods) = merge p periods

    unfoldable pub process_raw_schedule : R → R → List SchedulePeriod → List SchedulePeriod
    process_raw_schedule sim_start sim_end periods =
        merge_all (sort (valid_periods sim_start sim_end periods))
