-- ===== src/Examples/Engines.antt =====
-- The event loop at a concrete scenario: a pulsed transmitter and a pulsed receiver, every two units
-- up to time 5, and a streaming transmitter. The rest of the engine only polls the cancellation.
use fers.Base.{
  ◌+◌, ℕ, ◌*◌, ◌≡◌, refl, ◌≢◌, Bool, ok, true, false, none, List, [], ◌∷◌, arith, if◌then◌else◌,
  ltb, ◌<◌, ◌/◌,
}
use fers.Simulation.Sources.{Transmitter, pulsed_mode}
use fers.Simulation.Radar.{
  Receiver, get_next_pulse_time, get_next_window_time, next_scheduled_time, get_window_start,
  is_pulsed,
}
use fers.Simulation.Radar.Next.{Times}
use fers.Simulation.World.{
  push_event, schedule_pulsed_transmitter, schedule_initial_transmitter_events,
  schedule_pulsed_receiver, schedule_initial_receiver_events, schedule_transmitters,
  schedule_receivers, schedule_initial_events,
}
use fers.Simulation.World.Expected.{initial_events}
use fers.Simulation.World.Added.{schedule_initial_events-Initial}
use fers.Simulation.Events.{Event, tx_pulsed_start, rx_pulsed_window_start, sum_by, occurs_after}
use fers.Simulation.Engine.{
  Simulation, Engine, event_loop, out_of_fuel, round, finish_round, process_event, process_typed,
  push_next, handle_tx_pulsed_start, handle_rx_pulsed_window_start, handle_rx_pulsed_window_end,
}
use fers.Simulation.Engine.Order.{Forward, InOrder, event_loop-InOrder}
use fers.Simulation.Engine.Clock.{Clock}
use fers.Simulation.Engine.Progress.{
  rounds_within, rounds_beyond, total_rounds, event_loop-finishes,
}
use fers.Examples.Fixed.{unit, numbers, fixed, fixed-asymmetric, fixed-transitive}
use fers.Examples.Queues.{event_list}

-- Every second time unit.
abbrev pulsed_transmitter : Transmitter numbers
pulsed_transmitter = record { mode = pulsed_mode; prf = 500_000_000; signal = none; schedule = [] }

abbrev pub pulsed_receiver : Receiver numbers
pulsed_receiver = record {
  mode = pulsed_mode;
  window_length = unit;
  window_prf = 500_000_000;
  window_skip = 0;
  has_timing = true;
  schedule = [];
}

abbrev ask : List Bool → Bool × List Bool
ask [] = (false, [])
ask (b ∷ answers) = (b, answers)

abbrev scenario : Simulation numbers
scenario = record {
  events = event_list;
  transmitter_at = λ address. pulsed_transmitter;
  receiver_at = λ address. pulsed_receiver;
  start_time = 0;
  end_time = 5 * unit;
  internal_stop_time = 5 * unit;
  System = List Bool;
  is_cancellation_requested = ask;
  process_streaming_physics = λ from to s. s;
  physics_time = λ from to s. to;
  flush_blocks = λ s. s;
  has_active_if_overrender = λ s. false;
  shutdown = λ s. s;
  calculate_responses = λ tx t s. s;
  set_active = λ rx active s. s;
  enqueue_finalizer_job = λ rx t s. s;
  handle_tx_streaming_start = λ source s. s;
  handle_tx_streaming_end = λ t s. s;
  handle_rx_streaming_start = λ rx t s. s;
  handle_rx_streaming_end = λ rx t s. s;
}

abbrev waiting : Engine numbers scenario
waiting = record {
  t_current = 0;
  queue =
      record { timestamp = unit; type = rx_pulsed_window_start; source_object = 7 }
      ∷ record { timestamp = 0; type = tx_pulsed_start; source_object = 3 }
      ∷ [];
  system = [];
}

times : Times numbers
times = record { asymmetric = fixed-asymmetric; transitive = fixed-transitive }

forward : Forward numbers scenario
forward = record {
  pulses = λ tx t. ground arith;
  windows = λ rx t. ground arith;
  gaps = λ rx t. ground arith;
}

clock : Clock numbers scenario
clock = record {
  asymmetric = fixed-asymmetric;
  le-transitive = λ a b c h g. ground arith;
  le-left = λ a b h. ground arith;
  le-right = λ a b h. ground arith;
  le-not_lt = λ a b h g. ground arith;
  end-stop = refl;
  pulses = λ tx t h. ground arith;
  windows = λ rx t h. ground arith;
  gaps = λ rx t h. ground arith;
  tick = λ t. t / unit;
  later_tick = λ a b h. ground arith;
  pulse_tick = λ tx t h g. ground arith;
  window_tick = λ rx t h g. ground arith;
}

event_loop-InOrder_example :
    InOrder numbers scenario 0 (event_loop numbers scenario 12 waiting).processed
event_loop-InOrder_example = event_loop-InOrder numbers scenario times forward 12 waiting refl

enough : total_rounds numbers scenario clock waiting < 20
unfolding rounds_within rounds_beyond clock
enough = omega arith

event_loop-finishes_example : (event_loop numbers scenario 20 waiting).finish ≢ out_of_fuel
event_loop-finishes_example =
    event_loop-finishes numbers scenario clock 20 waiting enough (refl, refl)

-- An event up to the stop time counts.
abbrev timely : Event ℕ → ℕ
timely e = if ltb (5 * unit) e.timestamp then 0 else 1

-- Three pulses and three windows, the last of which ends after the stop time.
handles_nine : sum_by (λ e. 1) (event_loop numbers scenario 20 waiting).processed ≡ 9
unfolding event_loop round finish_round process_event process_typed push_next handle_tx_pulsed_start
    handle_rx_pulsed_window_start handle_rx_pulsed_window_end get_next_pulse_time
    get_next_window_time next_scheduled_time occurs_after
handles_nine = refl

schedules_initially :
    schedule_initial_events numbers event_list
      (λ address. pulsed_transmitter)
      (λ address. pulsed_receiver)
      (3 ∷ [])
      (7 ∷ [])
      unit
      (5 * unit)
      []
    ≡ ok (
        record { timestamp = 0; type = rx_pulsed_window_start; source_object = 7 }
        ∷ record { timestamp = unit; type = tx_pulsed_start; source_object = 3 }
        ∷ [])
unfolding schedule_initial_events schedule_transmitters schedule_receivers
    schedule_initial_transmitter_events schedule_initial_receiver_events schedule_pulsed_transmitter
    schedule_pulsed_receiver push_event get_window_start get_next_window_time get_next_pulse_time
    next_scheduled_time is_pulsed
schedules_initially = refl

never_before :
    (rx start : ℕ)
    → get_window_start numbers pulsed_receiver 0 ≡ ok start
    → fixed.lt start 0 ≡ false
never_before rx start h = ground arith

schedule_initial_events-Initial_example :
    let expected =
      initial_events numbers
        (λ address. pulsed_transmitter)
        (λ address. pulsed_receiver)
        unit
        (5 * unit)
        (3 ∷ [])
        (7 ∷ []) in
    (2 ≡ sum_by (λ e. 1) expected + 0)
    × (sum_by (λ e. if ltb e.timestamp 0 then 1 else 0) expected ≡ 0)
schedule_initial_events-Initial_example =
    schedule_initial_events-Initial numbers (λ address. pulsed_transmitter)
      (λ address. pulsed_receiver) unit (5 * unit) event_list times 0 refl refl never_before
      (λ e. 1) (3 ∷ []) (7 ∷ []) [] _ schedules_initially
