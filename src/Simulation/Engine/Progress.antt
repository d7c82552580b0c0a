-- ===== src/Simulation/Engine/Progress.antt =====
-- The loop comes to its end, and leaves no event behind that it should have handled.
use fers.Base.{
  ℕ, zero, suc, ◌≡◌, refl, ◌≢◌, ◌≤◌, ◌<◌, ◌⊎◌, ◌+◌, ◌-◌, ◌*◌, true, false, Option, none, some, List,
  [], ◌∷◌, if◌then◌else◌, arith,
}
use fers.Floats.{Floats}
use fers.Simulation.Radar.{get_next_pulse_time, get_next_window_time}
use fers.Simulation.Events.{
  Event, EventType, tx_pulsed_start, rx_pulsed_window_start, rx_pulsed_window_end,
  tx_streaming_start, tx_streaming_end, rx_streaming_start, rx_streaming_end, sum_by,
}
use fers.Simulation.Engine.{
  Simulation, Engine, Outcome, cancelled, out_of_fuel, handled, round, event_loop,
}
use fers.Simulation.Engine.Followup.{
  event, until_end, followup, measure, next_pulse, next_window, window_end,
}
use fers.Simulation.Radar.Next.{next_scheduled_time-forward}
use fers.Simulation.Engine.Clock.{Clock, Live, reached, popped-since, round-Live}
use fers.Simulation.Engine.Passes.{
  Pass, drains, stops, breaks, handles, event_loop-Pass, round-Handled,
}

module _ (F : Floats) (sim : Simulation F) (clock : Clock F sim) where
  open F use {R, double}
  open sim use {events, start_time, end_time, transmitter_at, receiver_at}
  open events use {Queue, pop, contents, pop-some, pop-none}
  open clock use {
    asymmetric, le-transitive, le-left, le-right, le-not_lt, end-stop, pulses, windows, gaps, tick,
    later_tick, pulse_tick, window_tick,
  }

  abbrev pub stop : R
  stop = sim.internal_stop_time

  -- The ticks that are left from a time to the stop time.
  abbrev pub left : R → ℕ
  left t = tick stop - tick t

  -- How many rounds an event can cause, with all that follow from it.
  unfoldable pub rounds_within : EventType → R → ℕ
  rounds_within tx_pulsed_start t = left t + 1
  rounds_within rx_pulsed_window_start t = 2 * left t + 4
  rounds_within rx_pulsed_window_end t = 2 * left t + 5
  rounds_within _ t = 1

  unfoldable pub rounds_beyond : EventType → ℕ
  rounds_beyond rx_pulsed_window_start = 2
  rounds_beyond _ = 1

  abbrev pub rounds : Event R → ℕ
  rounds e =
      if double.lt stop e.timestamp then rounds_beyond e.type else rounds_within e.type e.timestamp

  stop-ordered : double.le stop stop ≡ true
  stop-ordered = le-right end_time stop end-stop

  until_end-rounds :
      (bound : ℕ) (type : EventType) (object : ℕ) (from : R) (next : Option R)
      → double.le from from ≡ true
      → ((time : R) → next ≡ some time → double.lt time from ≡ false)
      → ((time : R)
          → double.le from time ≡ true
          → double.le time stop ≡ true
          → rounds_within type time < bound)
      → 1 ≤ bound
      → measure F sim rounds (until_end F sim next type object) < bound
  unfolding until_end
  until_end-rounds bound type object from none ordered h g k = omega (arith, k)
  until_end-rounds bound type object from (some time) ordered h g k = ground (
    arith,
    g time,
    reached F sim clock from time ordered (h time refl),
    le-transitive time end_time stop,
    end-stop,
    le-right from time,
    stop-ordered,
    le-not_lt time stop,
  )

  followup-rounds :
      (type : EventType) (object : ℕ) (t : R)
      → double.le start_time t ≡ true
      → measure F sim rounds (followup F sim type object t)
        < rounds (record { timestamp = t; type = type; source_object = object })
  unfolding followup get_next_pulse_time get_next_window_time rounds_within rounds_beyond
  followup-rounds tx_pulsed_start object t since =
      let next = next_pulse F sim object t in
      let forth = pulses object t since in
      until_end-rounds (rounds (event F sim t tx_pulsed_start object)) tx_pulsed_start object next _
        (le-right t next forth)
        (λ time h.
          next_scheduled_time-forward F asymmetric next time (transmitter_at object).schedule h)
        (λ time h g. ground (
          arith,
          le-transitive t next time forth h,
          le-transitive t time stop,
          le-right start_time t since,
          stop-ordered,
          le-not_lt t stop,
          later_tick next time h,
          later_tick time stop g,
          pulse_tick object t since,
        ))
        (ground arith)
  followup-rounds rx_pulsed_window_start object t since =
      let closing = window_end F sim object t in
      let forth = windows object t since in
      ground (
        arith,
        le-right start_time t since,
        le-right t closing forth,
        stop-ordered,
        le-not_lt t stop,
        le-not_lt closing stop,
        le-transitive t closing stop forth,
        later_tick closing stop,
        window_tick object t since,
      )
  followup-rounds rx_pulsed_window_end object t since =
      let next = next_window F sim object t in
      let forth = gaps object t since in
      until_end-rounds (rounds (event F sim t rx_pulsed_window_end object)) rx_pulsed_window_start
        object next _ (le-right t next forth)
        (λ time h.
          next_scheduled_time-forward F asymmetric next time (receiver_at object).schedule h)
        (λ time h g. ground (
          arith,
          le-transitive t next time forth h,
          le-transitive t time stop,
          le-right start_time t since,
          stop-ordered,
          le-not_lt t stop,
          later_tick t time,
          later_tick time stop g,
        ))
        (ground arith)
  followup-rounds tx_streaming_start object t since = ground arith
  followup-rounds tx_streaming_end object t since = ground arith
  followup-rounds rx_streaming_start object t since = ground arith
  followup-rounds rx_streaming_end object t since = ground arith

  -- The rounds that the pending events can cause.
  abbrev pub total_rounds : Engine F sim → ℕ
  total_rounds m = sum_by rounds (contents m.queue)

  round-total_rounds :
      (n : ℕ) (e : Event R) (rest : Queue) (m m' : Engine F sim)
      → pop m.queue ≡ some (e, rest)
      → round F sim e rest m ≡ handled m'
      → total_rounds m < suc n
      → Live F sim m
      → total_rounds m' < n
  round-total_rounds n e rest m m' popped went enough live = ground (
    arith,
    pop-some rounds e m.queue rest popped,
    round-Handled F sim rounds e rest m m' went,
    followup-rounds e.type e.source_object e.timestamp
        ((popped-since F sim clock e rest m popped live).1),
  )

  Pass-finishes :
      (n : ℕ) (m : Engine F sim) (o : Outcome F sim)
      → Pass F sim n m o
      → total_rounds m < suc n
      → Live F sim m
      → ((m' : Engine F sim)
          → total_rounds m' < n
          → Live F sim m'
          → (event_loop F sim n m').finish ≢ out_of_fuel)
      → o.finish ≢ out_of_fuel
  Pass-finishes n m _ (drains h) enough live next = λ e. ground arith
  Pass-finishes n m _ (stops e rest h g) enough live next = λ e. ground arith
  Pass-finishes n m _ (breaks e rest m' broke) enough live next = λ e. ground arith
  Pass-finishes n m _ (handles e rest m' popped within went) enough live next =
      next m' (round-total_rounds n e rest m m' popped went enough live)
        (round-Live F sim clock e rest m m' popped went live)

  -- With more fuel than the rounds that the pending events can cause, the loop ends: it runs out of
  -- events, passes the stop time or is cancelled. The conditions are that the current time is not
  -- before the start time and no pending event before the current time, and those of `Clock`: IEEE 754
  -- comparison; the end time is not after the stop time; from the start time on, intervals and windows
  -- do not go back in time and no window opens before the last has closed; and up to the stop time
  -- each interval and window is long enough not to be lost in rounding.
  pub event_loop-finishes :
      (n : ℕ) (m : Engine F sim)
      → total_rounds m < n
      → Live F sim m
      → (event_loop F sim n m).finish ≢ out_of_fuel
  unfolding event_loop
  event_loop-finishes zero m enough live = absurd (omega (arith, enough))
  event_loop-finishes (suc n) m enough live =
      Pass-finishes n m _ (event_loop-Pass F sim n m) enough live (event_loop-finishes n)

  -- A measure of the events up to the stop time.
  abbrev pub UntilStop : (Event R → ℕ) → Type 0
  UntilStop f = (e : Event R) → double.lt stop e.timestamp ≡ true → f e ≡ 0

  -- What a measure counts among the events that handling events has scheduled.
  unfoldable pub caused : (Event R → ℕ) → List (Event R) → ℕ
  caused f [] = 0
  caused f (e ∷ events) =
      measure F sim f (followup F sim e.type e.source_object e.timestamp) + caused f events

  -- The loop was cancelled, or what it has handled is what was pending and what was scheduled.
  abbrev pub Complete : (Event R → ℕ) → Engine F sim → Outcome F sim → Type 0
  Complete f m o =
      (o.finish ≡ cancelled)
      ⊎ (sum_by f o.processed ≡ sum_by f (contents m.queue) + caused f o.processed)
