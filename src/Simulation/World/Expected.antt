-- ===== src/Simulation/World/Expected.antt =====
-- What the world is to schedule at first: a description of the events, object by object, without a
-- queue.
use fers.Base.{ℕ, List, [], ◌∷◌, ◌++◌, some, none, ok, err, if◌then◌else◌}
use fers.Floats.{Floats}
use fers.Schedule.{SchedulePeriod, later}
use fers.Simulation.Sources.{Transmitter, make_active_source, earlier}
use fers.Simulation.Radar.{
  Receiver, is_pulsed, get_next_pulse_time, get_next_window_time, get_window_start,
}
use fers.Simulation.Events.{
  Event, EventType, tx_pulsed_start, rx_pulsed_window_start, tx_streaming_start, tx_streaming_end,
  rx_streaming_start, rx_streaming_end,
}

unfoldable pub all_of : {E : Type 0} → (ℕ → List E) → List ℕ → List E
all_of events_of [] = []
all_of events_of (object ∷ objects) = events_of object ++ all_of events_of objects

module _ (F : Floats) (transmitter_at : ℕ → Transmitter F) (receiver_at : ℕ → Receiver F)
    (sim_start sim_end : F.R) where
  open F use {R, double}

  abbrev pub event : R → EventType → ℕ → Event R
  event t type object = record { timestamp = t; type = type; source_object = object }

  -- The two ends of an interval that is not empty.
  unfoldable pub ends : EventType → EventType → ℕ → R → R → List (Event R)
  ends first last object start end =
      if double.lt start end then event start first object ∷ event end last object ∷ [] else []

  unfoldable pub transmitter_intervals : ℕ → List (SchedulePeriod F) → List (Event R)
  transmitter_intervals tx [] = []
  transmitter_intervals tx (p ∷ periods) =
      ends tx_streaming_start tx_streaming_end tx (later F sim_start p.start)
        (make_active_source F tx (transmitter_at tx) p.start (earlier F sim_end p.end)).segment_end
      ++ transmitter_intervals tx periods

  unfoldable pub receiver_intervals : ℕ → List (SchedulePeriod F) → List (Event R)
  receiver_intervals rx [] = []
  receiver_intervals rx (p ∷ periods) =
      ends rx_streaming_start rx_streaming_end rx (later F sim_start p.start)
        (earlier F sim_end p.end)
      ++ receiver_intervals rx periods

  -- A pulsed transmitter's first pulse up to the end; of a streaming one the periods in which it is
  -- active, or the whole run where it has no schedule.
  unfoldable pub transmitter_events : ℕ → List (Event R)
  transmitter_events tx =
      if is_pulsed ((transmitter_at tx).mode)
      then elim (get_next_pulse_time F (transmitter_at tx) sim_start) [
        | some start ↦ if double.le start sim_end then event start tx_pulsed_start tx ∷ [] else []
        | none ↦ []
      ]
      else elim ((transmitter_at tx).schedule) [
        | [] ↦
            ends tx_streaming_start tx_streaming_end tx sim_start
              ((make_active_source F tx (transmitter_at tx) sim_start sim_end).segment_end)
        | p ∷ periods ↦ transmitter_intervals tx (p ∷ periods)
      ]

  -- A pulsed receiver's first window before the end; of a streaming one the periods in which it is
  -- active, or the whole run where it has no schedule.
  unfoldable pub receiver_events : ℕ → List (Event R)
  receiver_events rx =
      if is_pulsed ((receiver_at rx).mode)
      then elim (get_window_start F (receiver_at rx) 0) [
        | err e ↦ []
        | ok nominal ↦ elim (get_next_window_time F (receiver_at rx) nominal) [
          | some start ↦
              if double.lt start sim_end then event start rx_pulsed_window_start rx ∷ [] else []
          | none ↦ []
        ]
      ]
      else elim ((receiver_at rx).schedule) [
        | [] ↦ event sim_start rx_streaming_start rx ∷ event sim_end rx_streaming_end rx ∷ []
        | p ∷ periods ↦ receiver_intervals rx (p ∷ periods)
      ]

  -- The events of all transmitters and receivers.
  abbrev pub initial_events : List ℕ → List ℕ → List (Event R)
  initial_events transmitters receivers =
      all_of transmitter_events transmitters ++ all_of receiver_events receivers
