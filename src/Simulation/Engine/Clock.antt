-- ===== src/Simulation/Engine/Clock.antt =====
-- No event falls behind the time of the loop: stated with `<=`, so that no time is NaN.
use fers.Base.{ℕ, ◌≡◌, refl, ◌≤◌, ◌<◌, true, false, not, Option, none, some, if◌then◌else◌, arith}
use fers.Floats.{Floats}
use fers.Simulation.Radar.{get_next_pulse_time, get_next_window_time}
use fers.Simulation.Events.{
  Event, EventType, tx_pulsed_start, rx_pulsed_window_start, rx_pulsed_window_end,
  tx_streaming_start, tx_streaming_end, rx_streaming_start, rx_streaming_end, sum_by,
  sum_by-zero_both, occurs_after,
}
use fers.Simulation.Engine.{Simulation, Engine, handled, round}
use fers.Simulation.Engine.Followup.{
  until_end, followup, measure, next_pulse, next_window, window_end,
}
use fers.Simulation.Radar.Next.{next_scheduled_time-forward}
use fers.Simulation.Engine.Passes.{round-Handled}

-- Times of a run. The first five fields are IEEE 754 behaviour, and hold of NaN too. The others are
-- conditions on a scenario: from the start time on, a repetition interval and a window do not go back
-- in time, and the next window does not open before the last has closed. From the start to the stop
-- time there are whole ticks, and a repetition interval and a window take one at least, that is they
-- are not lost in the rounding of a time before the stop.
pub record Clock (F : Floats) (sim : Simulation F) : Type 0 where
  pub asymmetric : (a b : F.R) → F.double.lt a b ≡ true → F.double.lt b a ≡ false
  pub le-transitive :
      (a b c : F.R) → F.double.le a b ≡ true → F.double.le b c ≡ true → F.double.le a c ≡ true
  pub le-left : (a b : F.R) → F.double.le a b ≡ true → F.double.le a a ≡ true
  pub le-right : (a b : F.R) → F.double.le a b ≡ true → F.double.le b b ≡ true
  pub le-not_lt :
      (a b : F.R)
      → F.double.le a a ≡ true
      → F.double.le b b ≡ true
      → F.double.le a b ≡ not (F.double.lt b a)
  pub end-stop : F.double.le sim.end_time sim.internal_stop_time ≡ true
  pub pulses :
      (tx : ℕ) (t : F.R)
      → F.double.le sim.start_time t ≡ true
      → F.double.le t (next_pulse F sim tx t) ≡ true
  pub windows :
      (rx : ℕ) (t : F.R)
      → F.double.le sim.start_time t ≡ true
      → F.double.le t (window_end F sim rx t) ≡ true
  pub gaps :
      (rx : ℕ) (t : F.R)
      → F.double.le sim.start_time t ≡ true
      → F.double.le t (next_window F sim rx t) ≡ true
  pub tick : F.R → ℕ
  pub later_tick : (a b : F.R) → F.double.le a b ≡ true → tick a ≤ tick b
  pub pulse_tick :
      (tx : ℕ) (t : F.R)
      → F.double.le sim.start_time t ≡ true
      → F.double.le t sim.internal_stop_time ≡ true
      → tick t < tick (next_pulse F sim tx t)
  pub window_tick :
      (rx : ℕ) (t : F.R)
      → F.double.le sim.start_time t ≡ true
      → F.double.le t sim.internal_stop_time ≡ true
      → tick t < tick (window_end F sim rx t)

module _ (F : Floats) (sim : Simulation F) where
  open F use {R, double}
  open sim use {events, start_time, end_time, transmitter_at, receiver_at}
  open events use {Queue, pop, contents, pop-some, pop-first}

  -- 0 of an event from a time on, 1 of another.
  abbrev pub behind : R → Event R → ℕ
  behind t e = if double.le t e.timestamp then 0 else 1

  -- The current time is not before the start time, and no pending event before the current time.
  abbrev pub Live : Engine F sim → Type 0
  Live m =
      (double.le start_time m.t_current ≡ true)
      × (sum_by (behind m.t_current) (contents m.queue) ≡ 0)

  module _ (clock : Clock F sim) where
    open clock use {asymmetric, le-transitive, le-left, le-right, le-not_lt, pulses, windows, gaps}

    -- A time that is compared with the end is after one that it does not precede.
    pub reached :
        (from time : R)
        → double.le from from ≡ true
        → double.lt time from ≡ false
        → double.le time end_time ≡ true
        → double.le from time ≡ true
    reached from time ordered h within = ground (arith, le-left time end_time, le-not_lt from time)

    until_end-behind :
        (t from : R) (next : Option R) (type : EventType) (object : ℕ)
        → double.le t from ≡ true
        → ((time : R) → next ≡ some time → double.lt time from ≡ false)
        → measure F sim (behind t) (until_end F sim next type object) ≡ 0
    unfolding until_end
    until_end-behind t from none type object h g = refl
    until_end-behind t from (some time) type object h g =
        ground
          (arith, reached from time (le-right t from h) (g time refl), le-transitive t from time h)

    followup-behind :
        (type : EventType) (object : ℕ) (t : R)
        → double.le start_time t ≡ true
        → measure F sim (behind t) (followup F sim type object t) ≡ 0
    unfolding followup get_next_pulse_time get_next_window_time
    followup-behind tx_pulsed_start object t since =
        until_end-behind t _ _ tx_pulsed_start object (pulses object t since) (λ time h.
          next_scheduled_time-forward F asymmetric _ time (transmitter_at object).schedule h)
    followup-behind rx_pulsed_window_start object t since = ground (arith, windows object t since)
    followup-behind rx_pulsed_window_end object t since =
        until_end-behind t _ _ rx_pulsed_window_start object (gaps object t since) (λ time h.
          next_scheduled_time-forward F asymmetric _ time (receiver_at object).schedule h)
    followup-behind tx_streaming_start object t since = refl
    followup-behind tx_streaming_end object t since = refl
    followup-behind rx_streaming_start object t since = refl
    followup-behind rx_streaming_end object t since = refl

    -- The event that is taken is not before the start time.
    pub popped-since :
        (e : Event R) (rest : Queue) (m : Engine F sim)
        → pop m.queue ≡ some (e, rest)
        → Live m
        → (double.le m.t_current e.timestamp ≡ true) × (double.le start_time e.timestamp ≡ true)
    popped-since e rest m popped live =
        let now : double.le m.t_current e.timestamp ≡ true =
          ground (arith, pop-some (behind m.t_current) e m.queue rest popped, live.1) in
        (now, le-transitive start_time m.t_current e.timestamp live.0 now)

    pub round-Live :
        (e : Event R) (rest : Queue) (m m' : Engine F sim)
        → pop m.queue ≡ some (e, rest)
        → round F sim e rest m ≡ handled m'
        → Live m
        → Live m'
    unfolding occurs_after
    round-Live e rest m m' popped went live =
        let since = popped-since e rest m popped live in
        let staying : sum_by (behind e.timestamp) (contents rest) ≡ 0 =
          sum_by-zero_both (behind e.timestamp) (behind m.t_current) after_event (contents rest)
            (λ y h g. later_kept y since.0 h g)
            (omega (arith, pop-some (behind m.t_current) e m.queue rest popped, live.1))
            (pop-first e m.queue rest popped) in
        let next = round-Handled F sim (behind e.timestamp) e rest m m' went in
        let fresh = followup-behind e.type e.source_object e.timestamp since.1 in
        ground (arith, staying, next, fresh, since.1)
      where
        after_event : Event R → ℕ
        after_event y = if occurs_after F e y then 1 else 0

        later_kept :
            (y : Event R)
            → double.le m.t_current e.timestamp ≡ true
            → behind m.t_current y ≡ 0
            → after_event y ≡ 0
            → behind e.timestamp y ≡ 0
        later_kept y now h g = ground (
          arith,
          le-right m.t_current e.timestamp now,
          le-right m.t_current y.timestamp,
          le-not_lt e.timestamp y.timestamp,
        )
