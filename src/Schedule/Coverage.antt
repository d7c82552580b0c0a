-- ===== src/Schedule/Coverage.antt =====
-- The processed schedule covers the same times as the valid periods, in separate periods.
use fers.Base.{◌≡◌, ◌∙◌, refl, Bool, true, false, not, ◌&&◌, ◌||◌, List, [], ◌∷◌, arith}
use fers.Floats.{Floats}
use fers.Schedule.{SchedulePeriod, valid_periods, later, merge, merge_all, process_raw_schedule}

module _ (F : Floats) where
  open F use {R, double}

  -- A period holds the times from its start to before its end.
  unfoldable pub within : R → SchedulePeriod F → Bool
  within t p = double.le p.start t && double.lt t p.end

  unfoldable pub covers : R → List (SchedulePeriod F) → Bool
  covers t [] = false
  covers t (p ∷ periods) = within t p || covers t periods

  abbrev pub StartsFrom : R → List (SchedulePeriod F) → Type 0
  StartsFrom t [] = Unit {0}
  StartsFrom t (p ∷ periods) = (double.le t p.start ≡ true) × StartsFrom p.start periods

  abbrev pub Sorted : List (SchedulePeriod F) → Type 0
  Sorted [] = Unit {0}
  Sorted (p ∷ periods) = StartsFrom p.start periods

  -- Each period starts after the one before it has ended, the first one after a time.
  abbrev pub After : R → List (SchedulePeriod F) → Type 0
  After t [] = Unit {0}
  After t (p ∷ periods) = (double.le p.start t ≡ false) × After p.end periods

  abbrev pub Separate : List (SchedulePeriod F) → Type 0
  Separate [] = Unit {0}
  Separate (p ∷ periods) = After p.end periods

  After-merge :
      (t : R) (back : SchedulePeriod F) (periods : List (SchedulePeriod F))
      → double.le back.start t ≡ false
      → After t (merge F back periods)
  unfolding merge
  After-merge t back [] h = (h, tt)
  After-merge t back (p ∷ periods) h = ground (
    arith,
    After-merge t (record back { end = later F back.end p.end }) periods h,
    After-merge back.end p periods,
  )

  merge-Separate :
      (back : SchedulePeriod F) (periods : List (SchedulePeriod F))
      → Separate (merge F back periods)
  unfolding merge
  merge-Separate back [] = tt
  merge-Separate back (p ∷ periods) = ground (
    arith,
    merge-Separate (record back { end = later F back.end p.end }) periods,
    After-merge back.end p periods,
  )

  merge_all-Separate :
      (sort : List (SchedulePeriod F) → List (SchedulePeriod F)) (periods : List (SchedulePeriod F))
      → Separate (merge_all F sort periods)
  unfolding merge_all
  merge_all-Separate sort [] = tt
  merge_all-Separate sort (p ∷ periods) = merge-Separate p periods

  -- In the processed schedule each period starts after the one before it has ended, whatever the raw
  -- periods are.
  pub process_raw_schedule-Separate :
      (sort : List (SchedulePeriod F) → List (SchedulePeriod F)) (sim_start sim_end : R)
      (periods : List (SchedulePeriod F))
      → Separate (process_raw_schedule F sort sim_start sim_end periods)
  unfolding process_raw_schedule
  process_raw_schedule-Separate sort sim_start sim_end periods =
      merge_all-Separate sort (sort (valid_periods F sim_start sim_end periods))

  module _ (total_order : (a b : R) → double.lt a b ≡ not (double.le b a))
      (transitive : (a b c : R)
        → double.le a b ≡ true
        → double.le b c ≡ true
        → double.le a c ≡ true)
      (either : (a b : R) → (double.le a b || double.le b a) ≡ true) where
    within-later :
        (t : R) (back p : SchedulePeriod F)
        → double.le back.start p.start ≡ true
        → double.le p.start back.end ≡ true
        → within t (record back { end = later F back.end p.end }) ≡ (within t back || within t p)
    unfolding within later
    within-later t back p h g = ground (
      arith,
      total_order back.end p.end,
      total_order t back.end,
      total_order t p.end,
      transitive back.start p.start t,
      transitive back.end p.end t,
      transitive p.end back.end t,
      transitive p.start back.end t,
      either t back.end,
      either p.end back.end,
    )

    StartsFrom-earlier :
        (a b : R) (periods : List (SchedulePeriod F))
        → double.le a b ≡ true
        → StartsFrom b periods
        → StartsFrom a periods
    StartsFrom-earlier a b [] h all = tt
    StartsFrom-earlier a b (p ∷ periods) h all = (transitive a b p.start h all.0, all.1)

    covers-merge :
        (t : R) (back : SchedulePeriod F) (periods : List (SchedulePeriod F))
        → StartsFrom back.start periods
        → covers t (merge F back periods) ≡ (within t back || covers t periods)
    unfolding covers merge
    covers-merge t back [] h = refl
    covers-merge t back (p ∷ periods) h = ground (
      arith,
      within-later t back p h.0,
      covers-merge t (record back { end = later F back.end p.end }) periods
          (StartsFrom-earlier back.start p.start periods h.0 h.1),
      covers-merge t p periods h.1,
    )

    covers-valid_periods :
        (t sim_start sim_end : R) (periods : List (SchedulePeriod F))
        → double.le sim_start t ≡ true
        → double.lt t sim_end ≡ true
        → covers t (valid_periods F sim_start sim_end periods) ≡ covers t periods
    unfolding covers valid_periods within
    covers-valid_periods t sim_start sim_end [] h g = refl
    covers-valid_periods t sim_start sim_end (p ∷ periods) h g = ground (
      arith,
      covers-valid_periods t sim_start sim_end periods h g,
      total_order t p.end,
      total_order t sim_end,
      transitive p.end p.start t,
      transitive p.end sim_start t,
      transitive sim_end p.start t,
    )

    module _ (sort : List (SchedulePeriod F) → List (SchedulePeriod F))
        (sort-Sorted : (periods : List (SchedulePeriod F)) → Sorted (sort periods))
        (covers-sort : (t : R) (periods : List (SchedulePeriod F))
          → covers t (sort periods) ≡ covers t periods) where
      covers-merge_all :
          (t : R) (periods : List (SchedulePeriod F))
          → Sorted periods
          → covers t (merge_all F sort periods) ≡ covers t periods
      unfolding merge_all covers
      covers-merge_all t [] h = refl
      covers-merge_all t (p ∷ periods) h = covers-merge t p periods h

      -- Where times are totally ordered, at every time of the simulation, from its start to before
      -- its end, the processed schedule is active exactly when one of the raw periods is. The sort
      -- is by the start times and keeps the periods.
      pub covers-process_raw_schedule :
          (t sim_start sim_end : R) (periods : List (SchedulePeriod F))
          → double.le sim_start t ≡ true
          → double.lt t sim_end ≡ true
          → covers t (process_raw_schedule F sort sim_start sim_end periods) ≡ covers t periods
      unfolding process_raw_schedule
      covers-process_raw_schedule t sim_start sim_end periods h g =
          let valid = valid_periods F sim_start sim_end periods in
          covers-merge_all t (sort valid) (sort-Sorted valid)
          ∙ covers-sort t valid
          ∙ covers-valid_periods t sim_start sim_end periods h g
