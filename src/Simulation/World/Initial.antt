-- ===== src/Simulation/World/Initial.antt =====
-- The events that the world schedules at first are none of them in the past.
use fers.Base.{
  ℕ, ◌≡◌, refl, ◌∙◌, false, List, [], ◌∷◌, Option-cases, List-cases, inl, inr, ok, Result-cases,
  if◌then◌else◌, arith,
}
use fers.Floats.{Floats}
use fers.Schedule.{SchedulePeriod, later}
use fers.Simulation.Sources.{Transmitter, make_active_source, earlier}
use fers.Simulation.Radar.{
  Receiver, get_next_pulse_time, get_next_window_time, get_window_start, next_scheduled_time,
}
use fers.Simulation.Events.{EventType, occurs_after, PriorityQueue, sum_by}
use fers.Simulation.World.{
  push_event, push_streaming_events, schedule_pulsed_transmitter, schedule_transmitter_periods,
  schedule_streaming_transmitter, schedule_initial_transmitter_events, schedule_pulsed_receiver,
  schedule_receiver_periods, schedule_streaming_receiver, schedule_initial_receiver_events,
  schedule_transmitters, schedule_receivers, schedule_initial_events,
}
use fers.Simulation.Radar.Next.{Times, next_scheduled_time-forward}

module _ (F : Floats) (events : PriorityQueue (occurs_after F)) (transmitter_at : ℕ → Transmitter F)
    (receiver_at : ℕ → Receiver F) where
  open F use {R, double}
  open events use {Queue, push, contents, contents-push}

  -- The number of events before a time.
  abbrev pub past : R → Queue → ℕ
  past t queue = sum_by (λ e. if double.lt e.timestamp t then 1 else 0) (contents queue)

  module _ (times : Times F) (t : R) where
    push_event-past :
        (time : R) (type : EventType) (object : ℕ) (queue : Queue)
        → double.lt time t ≡ false
        → past t (push_event F events transmitter_at receiver_at time type object queue)
          ≡ past t queue
    unfolding push_event
    push_event-past time type object queue h = ground (
      arith,
      contents-push (λ e. if double.lt e.timestamp t then 1 else 0)
          (record { timestamp = time; type = type; source_object = object }) queue,
    )

    push_streaming_events-past :
        (first last : EventType) (object : ℕ) (start end : R) (queue : Queue)
        → double.lt start t ≡ false
        → past t (
            push_streaming_events F events transmitter_at receiver_at first last object start end
              queue)
          ≡ past t queue
    unfolding push_streaming_events
    push_streaming_events-past first last object start end queue h = ground (
      arith,
      times.asymmetric start end,
      times.transitive end start t,
      push_event-past start first object queue,
      push_event-past end last object
          (push_event F events transmitter_at receiver_at start first object queue),
    )

    later-past :
        (sim_start start : R)
        → double.lt sim_start t ≡ false
        → double.lt (later F sim_start start) t ≡ false
    unfolding later
    later-past sim_start start h =
        ground (arith, times.asymmetric sim_start start, times.transitive start sim_start t)

    module _ (sim_start sim_end : R) (started : double.lt sim_start t ≡ false)
        (ended : double.lt sim_end t ≡ false)
        (nominal : (rx : ℕ) (start : R)
          → get_window_start F (receiver_at rx) 0 ≡ ok start
          → double.lt start t ≡ false) where
      schedule_pulsed_transmitter-past :
          (tx : ℕ) (queue : Queue)
          → past t (
              schedule_pulsed_transmitter F events transmitter_at receiver_at tx sim_start sim_end
                queue)
            ≡ past t queue
      unfolding schedule_pulsed_transmitter get_next_pulse_time
      schedule_pulsed_transmitter-past tx queue =
          elim (Option-cases (next_scheduled_time F sim_start (transmitter_at tx).schedule)) [
            | inl never ↦ ground arith
            | inr (start, h) ↦ ground (
              arith,
              next_scheduled_time-forward F times.asymmetric sim_start start
                  (transmitter_at tx).schedule h,
              times.transitive start sim_start t,
              push_event-past start EventType.tx_pulsed_start tx queue,
            )
          ]

      schedule_transmitter_periods-past :
          (tx : ℕ) (periods : List (SchedulePeriod F)) (queue : Queue)
          → past t (
              schedule_transmitter_periods F events transmitter_at receiver_at tx sim_start sim_end
                periods queue)
            ≡ past t queue
      unfolding schedule_transmitter_periods
      schedule_transmitter_periods-past tx [] queue = refl
      schedule_transmitter_periods-past tx (p ∷ periods) queue =
          schedule_transmitter_periods-past tx periods _
          ∙ push_streaming_events-past EventType.tx_streaming_start EventType.tx_streaming_end tx
              (later F sim_start p.start)
              (make_active_source F tx (transmitter_at tx) p.start
                (earlier F sim_end p.end)).segment_end
              queue (later-past sim_start p.start started)

      schedule_receiver_periods-past :
          (rx : ℕ) (periods : List (SchedulePeriod F)) (queue : Queue)
          → past t (
              schedule_receiver_periods F events transmitter_at receiver_at rx sim_start sim_end
                periods queue)
            ≡ past t queue
      unfolding schedule_receiver_periods
      schedule_receiver_periods-past rx [] queue = refl
      schedule_receiver_periods-past rx (p ∷ periods) queue =
          schedule_receiver_periods-past rx periods _
          ∙ push_streaming_events-past EventType.rx_streaming_start EventType.rx_streaming_end rx
              (later F sim_start p.start) (earlier F sim_end p.end) queue
              (later-past sim_start p.start started)

      schedule_initial_transmitter_events-past :
          (tx : ℕ) (queue : Queue)
          → past t (
              schedule_initial_transmitter_events F events transmitter_at receiver_at tx sim_start
                sim_end queue)
            ≡ past t queue
      unfolding schedule_initial_transmitter_events schedule_streaming_transmitter
      schedule_initial_transmitter_events-past tx queue =
          let start_times =
            push_streaming_events-past EventType.tx_streaming_start EventType.tx_streaming_end tx in
          elim (List-cases (transmitter_at tx).schedule) [
            | inl always ↦ ground (
              arith,
              schedule_pulsed_transmitter-past tx queue,
              start_times sim_start
                  (make_active_source F tx (transmitter_at tx) sim_start sim_end).segment_end queue
                  started,
            )
            | inr (p, periods, h) ↦ ground (
              arith,
              schedule_pulsed_transmitter-past tx queue,
              schedule_transmitter_periods-past tx (p ∷ periods) queue,
            )
          ]

      schedule_streaming_receiver-past :
          (rx : ℕ) (queue : Queue)
          → past t (
              schedule_streaming_receiver F events transmitter_at receiver_at rx sim_start sim_end
                queue)
            ≡ past t queue
      unfolding schedule_streaming_receiver
      schedule_streaming_receiver-past rx queue = elim (List-cases (receiver_at rx).schedule) [
        | inl always ↦
            let first =
              push_event F events transmitter_at receiver_at sim_start EventType.rx_streaming_start
                rx queue in
            ground (
              arith,
              push_event-past sim_start EventType.rx_streaming_start rx queue started,
              push_event-past sim_end EventType.rx_streaming_end rx first ended,
            )
        | inr (p, periods, h) ↦
            ground (arith, schedule_receiver_periods-past rx (p ∷ periods) queue)
      ]

      schedule_pulsed_receiver-past :
          (rx : ℕ) (queue next : Queue)
          → schedule_pulsed_receiver F events transmitter_at receiver_at rx sim_end queue ≡ ok next
          → past t next ≡ past t queue
      unfolding schedule_pulsed_receiver get_next_window_time
      schedule_pulsed_receiver-past rx queue next h =
          elim (Result-cases (get_window_start F (receiver_at rx) 0)) [
            | inr (e, failed) ↦ ground arith
            | inl (from, found) ↦
                elim (Option-cases (next_scheduled_time F from (receiver_at rx).schedule)) [
                  | inl never ↦ ground arith
                  | inr (start, g) ↦ ground (
                    arith,
                    next_scheduled_time-forward F times.asymmetric from start
                        (receiver_at rx).schedule g,
                    times.transitive start from t,
                    nominal rx from found,
                    push_event-past start EventType.rx_pulsed_window_start rx queue,
                  )
                ]
          ]

      schedule_initial_receiver_events-past :
          (rx : ℕ) (queue next : Queue)
          → schedule_initial_receiver_events F events transmitter_at receiver_at rx sim_start
              sim_end queue
            ≡ ok next
          → past t next ≡ past t queue
      unfolding schedule_initial_receiver_events
      schedule_initial_receiver_events-past rx queue next h = ground (
        arith,
        schedule_pulsed_receiver-past rx queue next,
        schedule_streaming_receiver-past rx queue,
      )

      schedule_transmitters-past :
          (transmitters : List ℕ) (queue : Queue)
          → past t (
              schedule_transmitters F events transmitter_at receiver_at transmitters sim_start
                sim_end queue)
            ≡ past t queue
      unfolding schedule_transmitters
      schedule_transmitters-past [] queue = refl
      schedule_transmitters-past (tx ∷ transmitters) queue =
          schedule_transmitters-past transmitters _
          ∙ schedule_initial_transmitter_events-past tx queue

      schedule_receivers-past :
          (receivers : List ℕ) (queue next : Queue)
          → schedule_receivers F events transmitter_at receiver_at receivers sim_start sim_end queue
            ≡ ok next
          → past t next ≡ past t queue
      unfolding schedule_receivers
      schedule_receivers-past [] queue next h = ground arith
      schedule_receivers-past (rx ∷ receivers) queue next h =
          elim (Result-cases (
            schedule_initial_receiver_events F events transmitter_at receiver_at rx sim_start
              sim_end queue)) [
                | inr (e, failed) ↦ ground arith
                | inl (middle, first) ↦ ground (
                  arith,
                  schedule_initial_receiver_events-past rx queue middle first,
                  schedule_receivers-past receivers middle next,
                )
              ]

      -- As many events are before a time as before, where neither the simulation's start and end nor
      -- any receiver's first nominal window is before that time. Times are ordered.
      pub schedule_initial_events-past :
          (transmitters receivers : List ℕ) (queue next : Queue)
          → schedule_initial_events F events transmitter_at receiver_at transmitters receivers
              sim_start sim_end queue
            ≡ ok next
          → past t next ≡ past t queue
      unfolding schedule_initial_events
      schedule_initial_events-past transmitters receivers queue next h =
          schedule_receivers-past receivers _ next h ∙ schedule_transmitters-past transmitters queue
