-- ===== src/Simulation/World/Added.antt =====
-- The world schedules what is expected of it, and keeps what is pending.
use fers.Base.{
  ℕ, ◌+◌, ◌≡◌, true, false, List, [], ◌∷◌, Option-cases, List-cases, inl, inr, ok, Result-cases,
  if◌then◌else◌, arith,
}
use fers.Floats.{Floats}
use fers.Schedule.{SchedulePeriod, later}
use fers.Simulation.Sources.{Transmitter, make_active_source, earlier}
use fers.Simulation.Radar.{
  Receiver, is_pulsed, get_next_pulse_time, get_next_window_time, get_window_start,
}
use fers.Simulation.Events.{
  Event, EventType, tx_pulsed_start, rx_pulsed_window_start, tx_streaming_start, tx_streaming_end,
  rx_streaming_start, rx_streaming_end, occurs_after, PriorityQueue, sum_by, sum_by-append,
}
use fers.Simulation.World.{
  push_event, push_streaming_events, schedule_pulsed_transmitter, schedule_transmitter_periods,
  schedule_streaming_transmitter, schedule_initial_transmitter_events, schedule_pulsed_receiver,
  schedule_receiver_periods, schedule_streaming_receiver, schedule_initial_receiver_events,
  schedule_transmitters, schedule_receivers, schedule_initial_events,
}
use fers.Simulation.World.Initial.{schedule_initial_events-past}
use fers.Simulation.Radar.Next.{Times}
use fers.Simulation.World.Expected.{
  all_of, event, ends, transmitter_intervals, receiver_intervals, transmitter_events,
  receiver_events, initial_events,
}

module _ (F : Floats) (transmitter_at : ℕ → Transmitter F) (receiver_at : ℕ → Receiver F)
    (sim_start sim_end : F.R) where
  open F use {R, double}

  module _ (events : PriorityQueue (occurs_after F)) (f : Event R → ℕ) where
    open events use {Queue, push, contents, contents-push}

    abbrev count : Queue → ℕ
    count queue = sum_by f (contents queue)

    push_event-count :
        (time : R) (type : EventType) (object : ℕ) (queue : Queue)
        → count (push_event F events transmitter_at receiver_at time type object queue)
          ≡ f ((event F transmitter_at receiver_at sim_start sim_end) time type object)
            + count queue
    unfolding push_event
    push_event-count time type object queue =
        contents-push f ((event F transmitter_at receiver_at sim_start sim_end) time type object)
          queue

    push_streaming_events-count :
        (first last : EventType) (object : ℕ) (start end : R) (queue : Queue)
        → count (
            push_streaming_events F events transmitter_at receiver_at first last object start end
              queue)
          ≡ sum_by f
              ((ends F transmitter_at receiver_at sim_start sim_end) first last object start end)
            + count queue
    unfolding push_streaming_events ends
    push_streaming_events-count first last object start end queue = ground (
      arith,
      push_event-count start first object queue,
      push_event-count end last object
          (push_event F events transmitter_at receiver_at start first object queue),
    )

    schedule_transmitter_periods-count :
        (tx : ℕ) (periods : List (SchedulePeriod F)) (queue : Queue)
        → count (
            schedule_transmitter_periods F events transmitter_at receiver_at tx sim_start sim_end
              periods queue)
          ≡ sum_by f
              ((transmitter_intervals F transmitter_at receiver_at sim_start sim_end) tx periods)
            + count queue
    unfolding schedule_transmitter_periods transmitter_intervals
    schedule_transmitter_periods-count tx [] queue = omega arith
    schedule_transmitter_periods-count tx (p ∷ periods) queue =
        let start = later F sim_start p.start in
        let source =
          make_active_source F tx (transmitter_at tx) p.start (earlier F sim_end p.end) in
        omega (
          arith,
          schedule_transmitter_periods-count tx periods (
              push_streaming_events F events transmitter_at receiver_at tx_streaming_start
                tx_streaming_end tx start source.segment_end queue),
          push_streaming_events-count tx_streaming_start tx_streaming_end tx start
              source.segment_end queue,
          sum_by-append f
              ((ends F transmitter_at receiver_at sim_start sim_end) tx_streaming_start
                tx_streaming_end tx start source.segment_end)
              ((transmitter_intervals F transmitter_at receiver_at sim_start sim_end) tx periods),
        )

    schedule_receiver_periods-count :
        (rx : ℕ) (periods : List (SchedulePeriod F)) (queue : Queue)
        → count (
            schedule_receiver_periods F events transmitter_at receiver_at rx sim_start sim_end
              periods queue)
          ≡ sum_by f
              ((receiver_intervals F transmitter_at receiver_at sim_start sim_end) rx periods)
            + count queue
    unfolding schedule_receiver_periods receiver_intervals
    schedule_receiver_periods-count rx [] queue = omega arith
    schedule_receiver_periods-count rx (p ∷ periods) queue =
        let start = later F sim_start p.start in
        let end = earlier F sim_end p.end in
        omega (
          arith,
          schedule_receiver_periods-count rx periods (
              push_streaming_events F events transmitter_at receiver_at rx_streaming_start
                rx_streaming_end rx start end queue),
          push_streaming_events-count rx_streaming_start rx_streaming_end rx start end queue,
          sum_by-append f
              ((ends F transmitter_at receiver_at sim_start sim_end) rx_streaming_start
                rx_streaming_end rx start end)
              ((receiver_intervals F transmitter_at receiver_at sim_start sim_end) rx periods),
        )

    transmitter_events-count :
        (tx : ℕ) (queue : Queue)
        → count (
            schedule_initial_transmitter_events F events transmitter_at receiver_at tx sim_start
              sim_end queue)
          ≡ sum_by f ((transmitter_events F transmitter_at receiver_at sim_start sim_end) tx)
            + count queue
    unfolding schedule_initial_transmitter_events schedule_streaming_transmitter
        schedule_pulsed_transmitter transmitter_events
    transmitter_events-count tx queue =
        let whole = (make_active_source F tx (transmitter_at tx) sim_start sim_end).segment_end in
        elim (Option-cases (get_next_pulse_time F (transmitter_at tx) sim_start)) [
          | inl never ↦ elim (List-cases (transmitter_at tx).schedule) [
            | inl always ↦ ground (
              arith,
              push_streaming_events-count tx_streaming_start tx_streaming_end tx sim_start whole
                  queue,
            )
            | inr (p, periods, h) ↦
                ground (arith, schedule_transmitter_periods-count tx (p ∷ periods) queue)
          ]
          | inr (start, found) ↦ elim (List-cases (transmitter_at tx).schedule) [
            | inl always ↦ ground (
              arith,
              push_event-count start tx_pulsed_start tx queue,
              push_streaming_events-count tx_streaming_start tx_streaming_end tx sim_start whole
                  queue,
            )
            | inr (p, periods, h) ↦ ground (
              arith,
              push_event-count start tx_pulsed_start tx queue,
              schedule_transmitter_periods-count tx (p ∷ periods) queue,
            )
          ]
        ]

    streaming_receiver-count :
        (rx : ℕ) (queue : Queue)
        → is_pulsed ((receiver_at rx).mode) ≡ false
        → count (
            schedule_streaming_receiver F events transmitter_at receiver_at rx sim_start sim_end
              queue)
          ≡ sum_by f ((receiver_events F transmitter_at receiver_at sim_start sim_end) rx)
            + count queue
    unfolding schedule_streaming_receiver receiver_events
    streaming_receiver-count rx queue streaming = elim (List-cases (receiver_at rx).schedule) [
      | inl always ↦
          (let first =
              push_event F events transmitter_at receiver_at sim_start rx_streaming_start rx
                queue in
            ground (
              arith,
              push_event-count sim_start rx_streaming_start rx queue,
              push_event-count sim_end rx_streaming_end rx first,
            ))
      | inr (p, periods, h) ↦ ground (arith, schedule_receiver_periods-count rx (p ∷ periods) queue)
    ]

    pulsed_receiver-count :
        (rx : ℕ) (queue next : Queue)
        → is_pulsed ((receiver_at rx).mode) ≡ true
        → schedule_pulsed_receiver F events transmitter_at receiver_at rx sim_end queue ≡ ok next
        → count next
          ≡ sum_by f ((receiver_events F transmitter_at receiver_at sim_start sim_end) rx)
            + count queue
    unfolding schedule_pulsed_receiver receiver_events
    pulsed_receiver-count rx queue next pulsed h =
        elim (Result-cases (get_window_start F (receiver_at rx) 0)) [
          | inr (e, failed) ↦ ground arith
          | inl (nominal, found) ↦
              elim (Option-cases (get_next_window_time F (receiver_at rx) nominal)) [
                | inl never ↦ ground arith
                | inr (start, g) ↦
                    ground (arith, push_event-count start rx_pulsed_window_start rx queue)
              ]
        ]

    receiver_events-count :
        (rx : ℕ) (queue next : Queue)
        → schedule_initial_receiver_events F events transmitter_at receiver_at rx sim_start sim_end
            queue
          ≡ ok next
        → count next
          ≡ sum_by f ((receiver_events F transmitter_at receiver_at sim_start sim_end) rx)
            + count queue
    unfolding schedule_initial_receiver_events
    receiver_events-count rx queue next h =
        ground (arith, pulsed_receiver-count rx queue next, streaming_receiver-count rx queue)

    schedule_transmitters-count :
        (transmitters : List ℕ) (queue : Queue)
        → count (
            schedule_transmitters F events transmitter_at receiver_at transmitters sim_start sim_end
              queue)
          ≡ sum_by f (
              all_of
                (transmitter_events F transmitter_at receiver_at sim_start sim_end)
                transmitters)
            + count queue
    unfolding schedule_transmitters all_of
    schedule_transmitters-count [] queue = omega arith
    schedule_transmitters-count (tx ∷ transmitters) queue = omega (
      arith,
      schedule_transmitters-count transmitters (
          schedule_initial_transmitter_events F events transmitter_at receiver_at tx sim_start
            sim_end queue),
      transmitter_events-count tx queue,
      sum_by-append f ((transmitter_events F transmitter_at receiver_at sim_start sim_end) tx)
          (all_of (transmitter_events F transmitter_at receiver_at sim_start sim_end) transmitters),
    )

    schedule_receivers-count :
        (receivers : List ℕ) (queue next : Queue)
        → schedule_receivers F events transmitter_at receiver_at receivers sim_start sim_end queue
          ≡ ok next
        → count next
          ≡ sum_by f
              (all_of (receiver_events F transmitter_at receiver_at sim_start sim_end) receivers)
            + count queue
    unfolding schedule_receivers all_of
    schedule_receivers-count [] queue next h = ground arith
    schedule_receivers-count (rx ∷ receivers) queue next h =
        elim (Result-cases (
          schedule_initial_receiver_events F events transmitter_at receiver_at rx sim_start sim_end
            queue)) [
              | inr (e, failed) ↦ ground arith
              | inl (middle, first) ↦ ground (
                arith,
                receiver_events-count rx queue middle first,
                schedule_receivers-count receivers middle next,
                sum_by-append f
                    ((receiver_events F transmitter_at receiver_at sim_start sim_end) rx)
                    (all_of (receiver_events F transmitter_at receiver_at sim_start sim_end)
                      receivers),
              )
            ]

    schedule_initial_events-count :
        (transmitters receivers : List ℕ) (queue next : Queue)
        → schedule_initial_events F events transmitter_at receiver_at transmitters receivers
            sim_start sim_end queue
          ≡ ok next
        → count next
          ≡ sum_by f (
              (initial_events F transmitter_at receiver_at sim_start sim_end) transmitters
                receivers)
            + count queue
    unfolding schedule_initial_events
    schedule_initial_events-count transmitters receivers queue next h =
        let middle =
          schedule_transmitters F events transmitter_at receiver_at transmitters sim_start sim_end
            queue in
        omega (
          arith,
          schedule_transmitters-count transmitters queue,
          schedule_receivers-count receivers middle next h,
          sum_by-append f
              (all_of (transmitter_events F transmitter_at receiver_at sim_start sim_end)
                transmitters)
              (all_of (receiver_events F transmitter_at receiver_at sim_start sim_end) receivers),
        )

  -- Where the world's initial scheduling returns, the queue holds what was pending, and besides
  -- exactly, as often as listed: of each pulsed transmitter its first pulse from the start on, if that
  -- is not after the end; of each pulsed receiver its first window, if that is before the end; and of
  -- each streaming one the start and the end of the periods in which it is active, that is of its
  -- scheduled periods as far as they lie in the run, a transmitter's also cut where its waveform ends,
  -- or of the whole run where it has no schedule. None of these is before a time which neither the
  -- simulation's start and end nor any receiver's first nominal window is before. Times are totally
  -- ordered, that is none is NaN.
  pub schedule_initial_events-Initial :
      (events : PriorityQueue (occurs_after F)) (times : Times F) (t : R)
      (started : double.lt sim_start t ≡ false) (ended : double.lt sim_end t ≡ false)
      (nominal : (rx : ℕ) (start : R)
        → get_window_start F (receiver_at rx) 0 ≡ ok start
        → double.lt start t ≡ false)
      (f : Event R → ℕ) (transmitters receivers : List ℕ) (queue next : events.Queue)
      → schedule_initial_events F events transmitter_at receiver_at transmitters receivers sim_start
          sim_end queue
        ≡ ok next
      → (sum_by f (events.contents next)
          ≡ sum_by f (
              (initial_events F transmitter_at receiver_at sim_start sim_end) transmitters
                receivers)
            + sum_by f (events.contents queue))
        × (sum_by
              (λ e. if double.lt e.timestamp t then 1 else 0)
              ((initial_events F transmitter_at receiver_at sim_start sim_end) transmitters
                receivers)
            ≡ 0)
  schedule_initial_events-Initial events times t started ended nominal f transmitters receivers
        queue next h =
      let early : Event R → ℕ = λ e. if double.lt e.timestamp t then 1 else 0 in
      (
        schedule_initial_events-count events f transmitters receivers queue next h,
        omega (
          arith,
          schedule_initial_events-count events early transmitters receivers queue next h,
          schedule_initial_events-past F events transmitter_at receiver_at times t sim_start sim_end
              started ended nominal transmitters receivers queue next h,
        ),
      )
