-- ===== src/Simulation/World.antt =====
-- `World::scheduleInitialEvents` of packages/libfers/src/core/world.cpp. An object is its address, and
-- the objects at the addresses are parameters.
pub mod Initial
pub mod Expected
pub mod Added
use fers.Base.{
  ℕ, ◌≡◌, Bool, true, List, [], ◌∷◌, Option, none, some, Result, ok, err, ◌>>=◌, if◌then◌else◌,
}
use fers.Floats.{Floats}
use fers.Schedule.{SchedulePeriod, later}
use fers.Simulation.Sources.{Transmitter, make_active_source, earlier, ActiveStreamingSource}
use fers.Simulation.Radar.{
  Receiver, is_pulsed, get_next_pulse_time, get_next_window_time, get_window_start,
}
use fers.Simulation.Events.{
  Event, EventType, tx_pulsed_start, rx_pulsed_window_start, tx_streaming_start, tx_streaming_end,
  rx_streaming_start, rx_streaming_end, occurs_after, PriorityQueue,
}

module _ (F : Floats) (events : PriorityQueue (occurs_after F)) (transmitter_at : ℕ → Transmitter F)
    (receiver_at : ℕ → Receiver F) where
  open F use {R, double}
  open events use {Queue, push}

  -- `_event_queue.push({time, type, object})`.
  unfoldable pub push_event : R → EventType → ℕ → Queue → Queue
  push_event time type object queue =
      push (record { timestamp = time; type = type; source_object = object }) queue

  unfoldable pub push_streaming_events : EventType → EventType → ℕ → R → R → Queue → Queue
  push_streaming_events first last object start end queue =
      if double.lt start end
      then push_event end last object (push_event start first object queue)
      else queue

  -- `scheduleInitialPulsedTransmitterEvent`.
  unfoldable pub schedule_pulsed_transmitter : ℕ → R → R → Queue → Queue
  schedule_pulsed_transmitter tx sim_start sim_end queue =
      elim (get_next_pulse_time F (transmitter_at tx) sim_start) [
        | some start ↦
            if double.le start sim_end then push_event start tx_pulsed_start tx queue else queue
        | none ↦ queue
      ]

  unfoldable pub schedule_transmitter_periods : ℕ → R → R → List (SchedulePeriod F) → Queue → Queue
  schedule_transmitter_periods tx sim_start sim_end [] queue = queue
  schedule_transmitter_periods tx sim_start sim_end (p ∷ periods) queue =
      let source = make_active_source F tx (transmitter_at tx) p.start (earlier F sim_end p.end) in
      schedule_transmitter_periods tx sim_start sim_end periods (
        push_streaming_events tx_streaming_start tx_streaming_end tx (later F sim_start p.start)
          source.segment_end queue)

  -- `scheduleInitialStreamingTransmitterEvents`.
  unfoldable pub schedule_streaming_transmitter : ℕ → R → R → Queue → Queue
  schedule_streaming_transmitter tx sim_start sim_end queue = elim ((transmitter_at tx).schedule) [
    | [] ↦
        push_streaming_events tx_streaming_start tx_streaming_end tx sim_start
          ((make_active_source F tx (transmitter_at tx) sim_start sim_end).segment_end) queue
    | p ∷ periods ↦ schedule_transmitter_periods tx sim_start sim_end (p ∷ periods) queue
  ]

  unfoldable pub schedule_initial_transmitter_events : ℕ → R → R → Queue → Queue
  schedule_initial_transmitter_events tx sim_start sim_end queue =
      if is_pulsed ((transmitter_at tx).mode)
      then schedule_pulsed_transmitter tx sim_start sim_end queue
      else schedule_streaming_transmitter tx sim_start sim_end queue

  -- `scheduleInitialPulsedReceiverEvent`.
  unfoldable pub schedule_pulsed_receiver : ℕ → R → Queue → Result Queue
  schedule_pulsed_receiver rx sim_end queue = do
    nominal_start ← get_window_start F (receiver_at rx) 0
    ok (elim (get_next_window_time F (receiver_at rx) nominal_start) [
      | some start ↦
          if double.lt start sim_end
          then push_event start rx_pulsed_window_start rx queue
          else queue
      | none ↦ queue
    ])

  unfoldable pub schedule_receiver_periods : ℕ → R → R → List (SchedulePeriod F) → Queue → Queue
  schedule_receiver_periods rx sim_start sim_end [] queue = queue
  schedule_receiver_periods rx sim_start sim_end (p ∷ periods) queue =
      schedule_receiver_periods rx sim_start sim_end periods (
        push_streaming_events rx_streaming_start rx_streaming_end rx (later F sim_start p.start)
          (earlier F sim_end p.end) queue)

  -- `scheduleInitialStreamingReceiverEvents`: without a schedule the two events are pushed untested.
  unfoldable pub schedule_streaming_receiver : ℕ → R → R → Queue → Queue
  schedule_streaming_receiver rx sim_start sim_end queue = elim ((receiver_at rx).schedule) [
    | [] ↦ push_event sim_end rx_streaming_end rx (push_event sim_start rx_streaming_start rx queue)
    | p ∷ periods ↦ schedule_receiver_periods rx sim_start sim_end (p ∷ periods) queue
  ]

  unfoldable pub schedule_initial_receiver_events : ℕ → R → R → Queue → Result Queue
  schedule_initial_receiver_events rx sim_start sim_end queue =
      if is_pulsed ((receiver_at rx).mode)
      then schedule_pulsed_receiver rx sim_end queue
      else ok (schedule_streaming_receiver rx sim_start sim_end queue)

  unfoldable pub schedule_transmitters : List ℕ → R → R → Queue → Queue
  schedule_transmitters [] sim_start sim_end queue = queue
  schedule_transmitters (tx ∷ transmitters) sim_start sim_end queue =
      schedule_transmitters transmitters sim_start sim_end
        (schedule_initial_transmitter_events tx sim_start sim_end queue)

  unfoldable pub schedule_receivers : List ℕ → R → R → Queue → Result Queue
  schedule_receivers [] sim_start sim_end queue = ok queue
  schedule_receivers (rx ∷ receivers) sim_start sim_end queue = do
    next ← schedule_initial_receiver_events rx sim_start sim_end queue
    schedule_receivers receivers sim_start sim_end next

  unfoldable pub schedule_initial_events : List ℕ → List ℕ → R → R → Queue → Result Queue
  schedule_initial_events transmitters receivers sim_start sim_end queue =
      schedule_receivers receivers sim_start sim_end
        (schedule_transmitters transmitters sim_start sim_end queue)
