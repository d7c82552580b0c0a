-- ===== src/Simulation/Engine/Followup.antt =====
-- The event that handling an event schedules.
use fers.Base.{◌≡◌, refl, ℕ, ◌+◌, Option, none, some, if◌then◌else◌, arith}
use fers.Floats.{Floats}
use fers.Simulation.Radar.{get_next_pulse_time, get_next_window_time, one}
use fers.Simulation.Events.{
  Event, EventType, tx_pulsed_start, rx_pulsed_window_start, rx_pulsed_window_end,
  tx_streaming_start, tx_streaming_end, rx_streaming_start, rx_streaming_end, sum_by,
}
use fers.Simulation.Engine.{
  Simulation, Engine, push_next, handle_tx_pulsed_start, handle_rx_pulsed_window_start,
  handle_rx_pulsed_window_end, process_typed, process_event,
}

module _ (F : Floats) (sim : Simulation F) where
  open F use {R, double}
  open sim use {events, transmitter_at, receiver_at, end_time}
  open events use {Queue, push, contents, contents-push}

  abbrev pub event : R → EventType → ℕ → Event R
  event t type object = record { timestamp = t; type = type; source_object = object }

  unfoldable pub until_end : Option R → EventType → ℕ → Option (Event R)
  until_end none type object = none
  until_end (some next) type object =
      if double.le next end_time then some (event next type object) else none

  abbrev pub next_pulse : ℕ → R → R
  next_pulse tx t = double.add t (double.div (one F) (transmitter_at tx).prf)

  abbrev pub window_end : ℕ → R → R
  window_end rx t = double.add t (receiver_at rx).window_length

  abbrev pub next_window : ℕ → R → R
  next_window rx t =
      double.add (double.sub t (receiver_at rx).window_length)
        (double.div (one F) (receiver_at rx).window_prf)

  unfoldable pub followup : EventType → ℕ → R → Option (Event R)
  followup tx_pulsed_start object t =
      until_end (get_next_pulse_time F (transmitter_at object) (next_pulse object t))
        tx_pulsed_start object
  followup rx_pulsed_window_start object t =
      some (event (window_end object t) rx_pulsed_window_end object)
  followup rx_pulsed_window_end object t =
      until_end (get_next_window_time F (receiver_at object) (next_window object t))
        rx_pulsed_window_start object
  followup _ object t = none

  abbrev pub measure : (Event R → ℕ) → Option (Event R) → ℕ
  measure f none = 0
  measure f (some e) = f e

  push_next_lem :
      (f : Event R → ℕ) (next : Option R) (type : EventType) (object : ℕ) (m : Engine F sim)
      → sum_by f (contents (push_next F sim next type object m).queue)
        ≡ measure f (until_end next type object) + sum_by f (contents m.queue)
  unfolding push_next until_end
  push_next_lem f none type object m = omega arith
  push_next_lem f (some next) type object m =
      ground (arith, contents-push f (event next type object) m.queue)

  -- Handling an event adds its follow-up to the queue, and nothing else.
  pub process_event-followup :
      (f : Event R → ℕ) (e : Event R) (m : Engine F sim)
      → sum_by f (contents (process_event F sim e m).queue)
        ≡ measure f (followup e.type e.source_object e.timestamp) + sum_by f (contents m.queue)
  unfolding process_event process_typed push_next followup handle_tx_pulsed_start
      handle_rx_pulsed_window_start handle_rx_pulsed_window_end
  process_event-followup f e m = typed e.type
    where
      typed :
          (type : EventType)
          → sum_by f (contents (process_typed F sim type e.source_object e.timestamp m).queue)
            ≡ measure f (followup type e.source_object e.timestamp) + sum_by f (contents m.queue)
      typed tx_pulsed_start = push_next_lem f _ tx_pulsed_start e.source_object _
      typed rx_pulsed_window_start = contents-push f _ m.queue
      typed rx_pulsed_window_end = push_next_lem f _ rx_pulsed_window_start e.source_object _
      typed tx_streaming_start = omega arith
      typed tx_streaming_end = omega arith
      typed rx_streaming_start = omega arith
      typed rx_streaming_end = omega arith

  -- The current time is left to the loop.
  pub process_event-t_current :
      (e : Event R) (m : Engine F sim) → (process_event F sim e m).t_current ≡ m.t_current
  unfolding process_event process_typed push_next followup handle_tx_pulsed_start
      handle_rx_pulsed_window_start handle_rx_pulsed_window_end
  process_event-t_current e m = typed e.type
    where
      pushed :
          (next : Option R) (type : EventType) (m : Engine F sim)
          → (push_next F sim next type e.source_object m).t_current ≡ m.t_current
      pushed none type m = refl
      pushed (some next) type m = ground arith

      typed :
          (type : EventType)
          → (process_typed F sim type e.source_object e.timestamp m).t_current ≡ m.t_current
      typed tx_pulsed_start = pushed _ tx_pulsed_start _
      typed rx_pulsed_window_start = refl
      typed rx_pulsed_window_end = pushed _ rx_pulsed_window_start _
      typed tx_streaming_start = refl
      typed tx_streaming_end = refl
      typed rx_streaming_start = refl
      typed rx_streaming_end = refl
