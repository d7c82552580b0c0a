-- ===== src/Simulation/Engine.antt =====
-- The event loop of `SimulationEngine` of packages/libfers/src/core/sim_threading.cpp: `run`,
-- `processEvent` and what the handlers do with the queue. What they do with samples, streams and
-- threads is the interface `Simulation`. Progress reports and logs are left out.
pub mod Followup
pub mod Passes
pub mod Order
pub mod Clock
pub mod Progress
pub mod Preserved
use fers.Base.{
  ℕ, zero, suc, ◌≡◌, Bool, true, false, not, ◌&&◌, List, [], ◌∷◌, Option, none, some, if◌then◌else◌,
}
use fers.Floats.{Floats}
use fers.Schedule.{SchedulePeriod, later}
use fers.Simulation.Sources.{
  Transmitter, ActiveStreamingSource, make_active_source, earlier, OperationMode, pulsed_mode,
}
use fers.Simulation.Radar.{Receiver, get_next_pulse_time, get_next_window_time, is_pulsed, one}
use fers.Simulation.Events.{
  Event, EventType, tx_pulsed_start, rx_pulsed_window_start, rx_pulsed_window_end,
  tx_streaming_start, tx_streaming_end, rx_streaming_start, rx_streaming_end, occurs_after,
  PriorityQueue,
}

-- A scenario, and the rest of the engine: its state, with what each call makes of it. The times that
-- a call takes are those of the event, or the current time and the time to go to. `physics_time` is
-- what `process_streaming_physics` makes of the current time.
pub record Simulation (F : Floats) : Type 1 where
  pub events : PriorityQueue (occurs_after F)
  pub transmitter_at : ℕ → Transmitter F
  pub receiver_at : ℕ → Receiver F
  pub start_time : F.R
  pub end_time : F.R
  pub internal_stop_time : F.R
  pub System : Type 0
  pub is_cancellation_requested : System → Bool × System
  pub process_streaming_physics : F.R → F.R → System → System
  pub physics_time : F.R → F.R → System → F.R
  pub flush_blocks : System → System
  pub has_active_if_overrender : System → Bool
  pub shutdown : System → System
  pub calculate_responses : ℕ → F.R → System → System
  pub set_active : ℕ → Bool → System → System
  pub enqueue_finalizer_job : ℕ → F.R → System → System
  pub handle_tx_streaming_start : ActiveStreamingSource F.R → System → System
  pub handle_tx_streaming_end : F.R → System → System
  pub handle_rx_streaming_start : ℕ → F.R → System → System
  pub handle_rx_streaming_end : ℕ → F.R → System → System

-- Why the loop has ended.
pub data Finish : Type 0 where
  drained past_stop cancelled out_of_fuel : Finish

module _ (F : Floats) (sim : Simulation F) where
  open F use {R, double}
  open sim use {
    events, transmitter_at, receiver_at, start_time, end_time, internal_stop_time, System,
    is_cancellation_requested, process_streaming_physics, physics_time, flush_blocks,
    has_active_if_overrender, shutdown, calculate_responses, set_active, enqueue_finalizer_job,
    handle_tx_streaming_start, handle_tx_streaming_end, handle_rx_streaming_start,
    handle_rx_streaming_end,
  }
  open events use {Queue, push, pop}

  pub record Engine : Type 0 where
    pub t_current : R
    pub queue : Queue
    pub system : System

  -- `processed` lists the events that were handled.
  pub record Outcome : Type 0 where
    pub engine : Engine
    pub processed : List (Event R)
    pub finish : Finish

  -- The loop over the periods in `streamingSourceAtEvent`.
  unfoldable pub source_in_periods :
      ℕ → R → List (SchedulePeriod F) → Option (ActiveStreamingSource R)
  source_in_periods tx time [] = none
  source_in_periods tx time (p ∷ periods) =
      let rest = source_in_periods tx time periods in
      let source =
        make_active_source F tx (transmitter_at tx) p.start (earlier F internal_stop_time p.end) in
      if double.le (later F start_time p.start) time && double.lt time source.segment_end
      then some source
      else rest

  unfoldable pub streaming_source_at_event : ℕ → R → Option (ActiveStreamingSource R)
  streaming_source_at_event tx time =
      if is_pulsed ((transmitter_at tx).mode) then none else elim ((transmitter_at tx).schedule) [
        | [] ↦
            (let source =
                make_active_source F tx (transmitter_at tx) start_time internal_stop_time in
              if double.le start_time time && double.lt time source.segment_end
              then some source
              else none)
        | p ∷ periods ↦ source_in_periods tx time (p ∷ periods)
      ]

  -- `_world->getEventQueue().push({*next, type, object})` where there is a next time that passes.
  unfoldable pub push_next : Option R → EventType → ℕ → Engine → Engine
  push_next none type object m = m
  push_next (some next) type object m =
      if double.le next end_time
      then record m {
        queue = push (record { timestamp = next; type = type; source_object = object }) m.queue;
      }
      else m

  unfoldable pub handle_tx_pulsed_start : ℕ → R → Engine → Engine
  handle_tx_pulsed_start tx t m =
      let next_theoretical = double.add t (double.div (one F) (transmitter_at tx).prf) in
      push_next (get_next_pulse_time F (transmitter_at tx) next_theoretical) tx_pulsed_start tx
        (record m { system = calculate_responses tx t m.system })

  unfoldable pub handle_rx_pulsed_window_start : ℕ → R → Engine → Engine
  handle_rx_pulsed_window_start rx t m = record m {
    system = set_active rx true m.system;
    queue =
        push
          (record {
            timestamp = double.add t (receiver_at rx).window_length;
            type = rx_pulsed_window_end;
            source_object = rx;
          })
          m.queue;
  }

  unfoldable pub handle_rx_pulsed_window_end : ℕ → R → Engine → Engine
  handle_rx_pulsed_window_end rx t m =
      let r = receiver_at rx in
      let window_start = double.sub t r.window_length in
      let next_theoretical = double.add window_start (double.div (one F) r.window_prf) in
      push_next (get_next_window_time F r next_theoretical) rx_pulsed_window_start rx
        (record m { system = enqueue_finalizer_job rx t (set_active rx false m.system) })

  unfoldable pub start_source : Option (ActiveStreamingSource R) → System → System
  start_source none s = s
  start_source (some source) s = handle_tx_streaming_start source s

  -- `processEvent`.
  unfoldable pub process_typed : EventType → ℕ → R → Engine → Engine
  process_typed tx_pulsed_start object t m = handle_tx_pulsed_start object t m
  process_typed rx_pulsed_window_start object t m = handle_rx_pulsed_window_start object t m
  process_typed rx_pulsed_window_end object t m = handle_rx_pulsed_window_end object t m
  process_typed tx_streaming_start object t m = record m {
    system = start_source (streaming_source_at_event object t) m.system;
  }
  process_typed tx_streaming_end object t m = record m {
    system = handle_tx_streaming_end m.t_current m.system;
  }
  process_typed rx_streaming_start object t m = record m {
    system = handle_rx_streaming_start object m.t_current m.system;
  }
  process_typed rx_streaming_end object t m = record m {
    system = handle_rx_streaming_end object m.t_current m.system;
  }

  unfoldable pub process_event : Event R → Engine → Engine
  process_event e m = process_typed e.type e.source_object e.timestamp m

  -- What a round of the loop makes of the engine, and whether it breaks out of the loop before it
  -- handles its event.
  pub data Round : Type 0 where
    broken handled : Engine → Round

  -- The round from its second test of the cancellation, with what that test gave.
  unfoldable pub finish_round : Event R → Queue → Engine → Bool × System → Round
  finish_round e rest m asked =
      if asked.0
      then broken (record m { queue = rest; system = asked.1 })
      else handled (
          process_event e
            (record { t_current = e.timestamp; queue = rest; system = flush_blocks asked.1 }))

  -- One round, with the event that `top` and `pop` take out of the queue.
  unfoldable pub round : Event R → Queue → Engine → Round
  round e rest m =
      let asked = is_cancellation_requested m.system in
      let physics = process_streaming_physics m.t_current e.timestamp asked.1 in
      if asked.0
      then broken (record m { system = asked.1 })
      else finish_round e rest
          (record m { t_current = physics_time m.t_current e.timestamp asked.1 })
          (is_cancellation_requested physics)

  -- The `while` loop of `run`, on fuel.
  unfoldable pub event_loop : ℕ → Engine → Outcome
  event_loop zero m = record { engine = m; processed = []; finish = out_of_fuel }
  event_loop (suc n) m = elim (pop m.queue) [
    | none ↦ record { engine = m; processed = []; finish = drained }
    | some taken ↦ elim (double.le m.t_current internal_stop_time) [
      | false ↦ record { engine = m; processed = []; finish = past_stop }
      | true ↦ elim (round taken.0 taken.1 m) [
        | broken m' ↦ record { engine = m'; processed = []; finish = cancelled }
        | handled m' ↦ (let o = event_loop n m' in record o { processed = taken.0 ∷ o.processed })
      ]
    ]
  ]

  -- The end of `run` after the loop: the rendering past the end for the resamplers, and the shutdown.
  unfoldable pub finish_run : Engine → System
  finish_run m =
      let asked = is_cancellation_requested m.system in
      shutdown (
        flush_blocks (
          if not asked.0 && has_active_if_overrender asked.1
          then process_streaming_physics m.t_current internal_stop_time asked.1
          else asked.1))

  unfoldable pub run : ℕ → Engine → System
  run fuel m = finish_run (event_loop fuel m).engine
