-- ===== src/Examples/Receivers.antt =====
-- A whole run with one streaming receiver, which takes two samples in a time unit.
use fers.Base.{ℕ, ◌*◌, ◌≡◌, refl, true, false, none, some, [], ◌∷◌}
use fers.Simulation.Sources.{Transmitter, cw_mode, plain_wave}
use fers.Simulation.Radar.{Receiver, is_pulsed}
use fers.Simulation.Events.{rx_streaming_start, rx_streaming_end}
use fers.Simulation.Engine.{Engine, run}
use fers.Simulation.Streams.{Setup, DownsamplingSink, Stream}
use fers.Simulation.Streams.Handlers.{simulation, known}
use fers.Simulation.Streams.Sampling.{is_streaming_receiver}
use fers.Simulation.Streams.Session.{session, unregistered}
use fers.Simulation.Streams.Lifecycle.{Ended, run-Ended}
use fers.Examples.Fixed.{unit, numbers}
use fers.Examples.Queues.{event_list}

-- A filter that puts nothing out.
abbrev no_filter : DownsamplingSink ℕ
no_filter = record {
  Filter = ℕ;
  new_filter = 0;
  ratio = 1;
  output_sample_count = λ filter. 0;
  consume = λ samples filter. filter;
  finish = λ filter. filter;
  take_output = λ filter. ([], filter);
}

abbrev carrier : Transmitter numbers
carrier = record { mode = cw_mode; prf = 0; signal = some plain_wave; schedule = [] }

abbrev pub listener : Receiver numbers
listener = record {
  mode = cw_mode;
  window_length = 0;
  window_prf = 0;
  window_skip = 0;
  has_timing = true;
  schedule = [];
}

-- Each sample is its own number.
abbrev setup : Setup numbers ℕ
setup = record {
  transmitters = 3 ∷ [];
  receivers = 7 ∷ [];
  transmitter_at = λ address. carrier;
  receiver_at = λ address. listener;
  dechirp_enabled = λ rx. false;
  start_time = 0;
  end_time = 2 * unit;
  internal_stop_time = 2 * unit;
  rate = 2 * unit;
  oversample_ratio = 1;
  c = unit;
  infinity = 1000 * unit;
  world_bounding_diameter = unit;
  max_propagation_legs = 2;
  eager_context_stream_open = true;
  received = λ rx index sources. index;
  still_live = λ rx index source. false;
  with_interference = λ rx time block. block;
  with_noise = λ rx start block. block;
  filters = no_filter;
}

abbrev new_stream : Stream ℕ ℕ ℕ
new_stream = record {
  buffer = [];
  block_start_time = 0;
  block_start_index = 0;
  downsampler = none;
  base_index = 0;
  segment_start_time = 0;
  sample_cursor = 0;
  registered = false;
  described = false;
  stream_open = false;
}

abbrev start : Engine numbers (simulation numbers ℕ setup event_list)
start = record {
  t_current = 0;
  queue =
      record { timestamp = 2 * unit; type = rx_streaming_end; source_object = 7 }
      ∷ record { timestamp = 0; type = rx_streaming_start; source_object = 7 }
      ∷ [];
  system = record {
    streams = λ rx. new_stream;
    active = λ rx. false;
    sources = [];
    next_context_heartbeat_time = unit;
    cancelled = false;
    answers = [];
    calls = [];
    jobs = [];
  };
}

listens : is_streaming_receiver numbers ℕ setup 7 ≡ true
unfolding is_streaming_receiver is_pulsed
listens = refl

is_known : known numbers ℕ setup 7 (7 ∷ []) ≡ true
unfolding known
is_known = refl

fresh : session {R = ℕ} {S = ℕ} 7 [] ≡ some unregistered
unfolding session
fresh = refl

run-Ended_example :
    Ended numbers ℕ setup 7 refl refl event_list
      (session 7 (run numbers (simulation numbers ℕ setup event_list) 5 start).calls)
run-Ended_example =
    run-Ended numbers ℕ setup 7 refl refl event_list 5 start listens is_known (fresh, refl)
