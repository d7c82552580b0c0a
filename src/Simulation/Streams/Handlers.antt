-- ===== src/Simulation/Streams/Handlers.antt =====
-- The handlers of the events for the streams and the finalizer threads, the shutdown, and the engine's
-- event loop over them.
use fers.Base.{ℕ, Bool, true, false, not, ◌&&◌, List, [], ◌∷◌, ◌++◌, none, if◌then◌else◌, ◌==◌}
use fers.Floats.{Floats}
use fers.Schedule.{SchedulePeriod}
use fers.Simulation.Sources.{ActiveStreamingSource, make_active_source, earlier}
use fers.Simulation.Radar.{is_pulsed, one}
use fers.Simulation.Events.{PriorityQueue, occurs_after}
use fers.Simulation.Engine.{Simulation}
use fers.Simulation.Streams.{Setup, RenderingJob, close_stream}
use fers.Simulation.Streams.Blocks.{
  call, set_stream, ensure_stream_open, flush_block, submit_each, flush_blocks, is_empty,
  set_downsampler,
}
use fers.Simulation.Streams.Sampling.{
  Now, poll, cleanup_inactive_sources, is_streaming_receiver, streaming_output_sample_rate,
  process_streaming_physics, physics_time,
}

module _ (F : Floats) (S : Type 0) (setup : Setup F S) where
  open F use {R, double}
  open setup use {
    transmitters, receivers, transmitter_at, receiver_at, start_time, end_time,
    eager_context_stream_open,
  }

  -- `append_candidate` of `collectStreamingSourcesForWindow`.
  unfoldable pub candidate : ℕ → R → R → R → List (ActiveStreamingSource R)
  candidate tx start end window_end =
      let source = make_active_source F tx (transmitter_at tx) start end in
      if double.lt source.segment_start source.segment_end
        && double.lt source.segment_start window_end
      then source ∷ []
      else []

  unfoldable pub candidates : ℕ → R → List (SchedulePeriod F) → List (ActiveStreamingSource R)
  candidates tx window_end [] = []
  candidates tx window_end (p ∷ periods) =
      candidate tx p.start (earlier F end_time p.end) window_end ++ candidates tx window_end periods

  unfoldable pub sources_of : ℕ → R → List (ActiveStreamingSource R)
  sources_of tx window_end =
      let schedule = (transmitter_at tx).schedule in
      if is_pulsed (transmitter_at tx).mode
      then []
      else if is_empty schedule
      then candidate tx start_time end_time window_end
      else candidates tx window_end schedule

  -- `collectStreamingSourcesForWindow`.
  unfoldable pub collect_sources : List ℕ → R → List (ActiveStreamingSource R)
  collect_sources [] window_end = []
  collect_sources (tx ∷ others) window_end =
      sources_of tx window_end ++ collect_sources others window_end

  unfoldable pub set_active : ℕ → Bool → Now F S setup → Now F S setup
  set_active rx value s = record s {
    active = λ other. if other == rx then value else s.active other;
  }

  unfoldable pub enqueue_job : RenderingJob R → Now F S setup → Now F S setup
  enqueue_job job s = record s { jobs = job ∷ s.jobs }

  -- The job of `handleRxPulsedWindowEnd`, without the responses in the inbox.
  unfoldable pub enqueue_window_job : ℕ → R → Now F S setup → Now F S setup
  enqueue_window_job rx t s =
      let window_length = (receiver_at rx).window_length in
      enqueue_job
        (record {
          receiver = rx;
          ideal_start_time = double.sub t window_length;
          duration = window_length;
          active_streaming_sources = collect_sources transmitters t;
        })
        s

  unfoldable pub handle_tx_streaming_start : ActiveStreamingSource R → Now F S setup → Now F S setup
  handle_tx_streaming_start source s = record s { sources = s.sources ++ source ∷ [] }

  unfoldable pub known : ℕ → List ℕ → Bool
  known rx [] = false
  known rx (other ∷ others) = if other == rx then true else known rx others

  unfoldable pub handle_rx_streaming_start : ℕ → R → Now F S setup → Now F S setup
  handle_rx_streaming_start rx t s =
      let active = set_active rx true s in
      let reset = set_downsampler F S setup rx none active in
      if not (known rx receivers)
      then active
      else if eager_context_stream_open
      then ensure_stream_open F S setup rx t (streaming_output_sample_rate F S setup rx) reset
      else reset

  unfoldable pub close_if_open : ℕ → Now F S setup → Now F S setup
  close_if_open rx s =
      if (s.streams rx).stream_open
      then set_stream F S setup rx (record (s.streams rx) { stream_open = false })
          (call F S setup (close_stream rx) s)
      else s

  -- `flushStreamingOutputBlock(rx, true)`, where each block is submitted alone.
  abbrev pub flush_last : ℕ → Now F S setup → Now F S setup
  flush_last rx s = submit_each F S setup (flush_block F S setup rx true s)

  unfoldable pub handle_rx_streaming_end : ℕ → R → Now F S setup → Now F S setup
  handle_rx_streaming_end rx t s =
      if known rx receivers
      then set_active rx false (close_if_open rx (flush_last rx s))
      else set_active rx false s

  unfoldable pub shutdown_receiver : ℕ → Now F S setup → Now F S setup
  shutdown_receiver rx s =
      if is_streaming_receiver F S setup rx
      then close_if_open rx (flush_last rx s)
      else enqueue_job
          (record {
            receiver = rx;
            ideal_start_time = double.of_ℕ 0;
            duration = double.neg (one F);
            active_streaming_sources = [];
          })
          s

  -- `shutdown`, but for the threads that it waits for.
  unfoldable pub shutdown : List ℕ → Now F S setup → Now F S setup
  shutdown [] s = s
  shutdown (rx ∷ others) s = shutdown others (shutdown_receiver rx s)

  -- The engine over these operations. The responses to a pulse go to the finalizers.
  abbrev pub simulation : PriorityQueue (occurs_after F) → Simulation F
  simulation events = record {
    events = events;
    transmitter_at = transmitter_at;
    receiver_at = receiver_at;
    start_time = start_time;
    end_time = end_time;
    internal_stop_time = setup.internal_stop_time;
    System = Now F S setup;
    is_cancellation_requested = λ s. ((poll F S setup s).cancelled, poll F S setup s);
    process_streaming_physics = process_streaming_physics F S setup;
    physics_time = physics_time F S setup;
    flush_blocks = flush_blocks F S setup false;
    has_active_if_overrender = λ s. false;
    shutdown = shutdown receivers;
    calculate_responses = λ tx t s. s;
    set_active = set_active;
    enqueue_finalizer_job = enqueue_window_job;
    handle_tx_streaming_start = handle_tx_streaming_start;
    handle_tx_streaming_end = cleanup_inactive_sources F S setup;
    handle_rx_streaming_start = handle_rx_streaming_start;
    handle_rx_streaming_end = handle_rx_streaming_end;
  }
