-- ===== src/Simulation/Radar/Next.antt =====
-- The next active time of a schedule is not before the time that is asked for.
use fers.Base.{◌≡◌, true, false, List, [], ◌∷◌, some, arith}
use fers.Floats.{Floats}
use fers.Schedule.{SchedulePeriod}
use fers.Simulation.Radar.{next_active_time, next_scheduled_time}

-- `<` of times.
pub record Times (F : Floats) : Type 0 where
  pub asymmetric : (a b : F.R) → F.double.lt a b ≡ true → F.double.lt b a ≡ false
  pub transitive :
      (a b c : F.R) → F.double.lt a b ≡ false → F.double.lt b c ≡ false → F.double.lt a c ≡ false

module _ (F : Floats) where
  open F use {R, double}

  module _ (asymmetric : (a b : R) → double.lt a b ≡ true → double.lt b a ≡ false) where
    pub next_active_time-forward :
        (time next : R) (periods : List (SchedulePeriod F))
        → next_active_time F time periods ≡ some next
        → double.lt next time ≡ false
    unfolding next_active_time
    next_active_time-forward time next [] h = ground arith
    next_active_time-forward time next (p ∷ periods) h = ground (
      arith,
      next_active_time-forward time next periods,
      asymmetric time p.start,
      asymmetric time time,
    )

    pub next_scheduled_time-forward :
        (time next : R) (periods : List (SchedulePeriod F))
        → next_scheduled_time F time periods ≡ some next
        → double.lt next time ≡ false
    unfolding next_scheduled_time
    next_scheduled_time-forward time next [] h = ground (arith, asymmetric time time)
    next_scheduled_time-forward time next (p ∷ periods) h =
        next_active_time-forward time next (p ∷ periods) h
