-- ===== src/Simulation/Engine/Order.antt =====
-- Events are handled in the order of their times, as long as no handler schedules one in the past.
use mathlib.Core.Path.{subst}
use fers.Base.{
  ℕ, zero, suc, ◌≡◌, refl, false, Option, none, some, List, [], ◌∷◌, if◌then◌else◌, arith,
}
use fers.Floats.{Floats}
use fers.Simulation.Radar.Next.{Times, next_scheduled_time-forward}
use fers.Simulation.Radar.{get_next_pulse_time, get_next_window_time}
use fers.Simulation.Events.{
  Event, EventType, tx_pulsed_start, rx_pulsed_window_start, rx_pulsed_window_end,
  tx_streaming_start, tx_streaming_end, rx_streaming_start, rx_streaming_end, sum_by, occurs_after,
}
use fers.Simulation.Engine.{Simulation, Engine, Outcome, handled, round, event_loop}
use fers.Simulation.Engine.Passes.{
  Pass, drains, stops, breaks, handles, event_loop-Pass, round-Handled,
}
use fers.Simulation.Engine.Followup.{
  until_end, followup, measure, next_pulse, next_window, window_end,
}

-- No event is scheduled before the one that schedules it: a repetition interval and a window's
-- length do not go back in time, and the next window does not open before the last has closed.
pub record Forward (F : Floats) (sim : Simulation F) : Type 0 where
  pub pulses : (tx : ℕ) (t : F.R) → F.double.lt (next_pulse F sim tx t) t ≡ false
  pub windows : (rx : ℕ) (t : F.R) → F.double.lt (window_end F sim rx t) t ≡ false
  pub gaps : (rx : ℕ) (t : F.R) → F.double.lt (next_window F sim rx t) t ≡ false

module _ (F : Floats) (sim : Simulation F) where
  open F use {R, double}
  open sim use {events, end_time, transmitter_at, receiver_at}
  open events use {Queue, pop, contents, pop-some, pop-first}

  -- 1 of an event before a time, 0 of another.
  abbrev pub early : R → Event R → ℕ
  early t e = if double.lt e.timestamp t then 1 else 0

  -- No event of the queue is before the current time.
  abbrev pub Current : Engine F sim → Type 0
  Current m = sum_by (early m.t_current) (contents m.queue) ≡ 0

  -- Each event is not before the one that is handled before it, the first not before a time.
  abbrev pub InOrder : R → List (Event R) → Type 0
  InOrder t [] = Unit {0}
  InOrder t (e ∷ events) = (double.lt e.timestamp t ≡ false) × InOrder e.timestamp events

  module _ (times : Times F) where
    module _ (forward : Forward F sim) where
      until_end-early :
          (t from : R) (next : Option R) (type : EventType) (object : ℕ)
          → double.lt from t ≡ false
          → ((time : R) → next ≡ some time → double.lt time from ≡ false)
          → measure F sim (early t) (until_end F sim next type object) ≡ 0
      unfolding until_end
      until_end-early t from none type object h g = refl
      until_end-early t from (some time) type object h g =
          ground (arith, times.transitive time from t (g time refl) h)

      pub followup-early :
          (type : EventType) (object : ℕ) (t : R)
          → measure F sim (early t) (followup F sim type object t) ≡ 0
      unfolding followup get_next_pulse_time get_next_window_time
      followup-early tx_pulsed_start object t =
          until_end-early t _ _ tx_pulsed_start object (forward.pulses object t) (λ time h.
            next_scheduled_time-forward F times.asymmetric _ time (transmitter_at object).schedule
              h)
      followup-early rx_pulsed_window_start object t = ground (arith, forward.windows object t)
      followup-early rx_pulsed_window_end object t =
          until_end-early t _ _ rx_pulsed_window_start object (forward.gaps object t) (λ time h.
            next_scheduled_time-forward F times.asymmetric _ time (receiver_at object).schedule h)
      followup-early tx_streaming_start object t = refl
      followup-early tx_streaming_end object t = refl
      followup-early rx_streaming_start object t = refl
      followup-early rx_streaming_end object t = refl

  module _ (times : Times F) (forward : Forward F sim) where
    pub round-Current :
        (e : Event R) (rest : Queue) (m m' : Engine F sim)
        → pop m.queue ≡ some (e, rest)
        → round F sim e rest m ≡ handled m'
        → Current m'
    unfolding occurs_after
    round-Current e rest m m' popped went =
        let now = round-Handled F sim (early m'.t_current) e rest m m' went in
        ground (
          arith,
          now,
          pop-first e m.queue rest popped,
          followup-early times forward e.type e.source_object e.timestamp,
        )

    Pass-InOrder :
        (n : ℕ) (m : Engine F sim) (o : Outcome F sim)
        → Pass F sim n m o
        → Current m
        → ((m' : Engine F sim)
            → Current m'
            → InOrder m'.t_current (event_loop F sim n m').processed)
        → InOrder m.t_current o.processed
    Pass-InOrder n m _ (drains h) current next = tt
    Pass-InOrder n m _ (stops e rest h g) current next = tt
    Pass-InOrder n m _ (breaks e rest m' broke) current next = tt
    Pass-InOrder n m _ (handles e rest m' popped within went) current next = (
      ground (arith, pop-some (early m.t_current) e m.queue rest popped),
      subst (λ t. InOrder t (event_loop F sim n m').processed)
          ((round-Handled F sim (λ _. 0) e rest m m' went).1)
          (next m' (round-Current e rest m m' popped went)),
    )

    -- The events are handled in the order of their times, none before the current time, if at the
    -- start none is pending before it. Times are ordered, and no handler schedules an event in the
    -- past.
    pub event_loop-InOrder :
        (n : ℕ) (m : Engine F sim)
        → Current m
        → InOrder m.t_current (event_loop F sim n m).processed
    unfolding event_loop
    event_loop-InOrder zero m current = tt
    event_loop-InOrder (suc n) m current =
        Pass-InOrder n m _ (event_loop-Pass F sim n m) current (event_loop-InOrder n)
