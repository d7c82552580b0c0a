-- ===== src/Simulation/Streams/Sampling.antt =====
-- `processStreamingPhysics`: the samples between two events, the heartbeats of the context packets,
-- and the end of sources that no receiver hears any more.
use fers.Base.{
  ℕ, zero, suc, ◌+◌, ◌-◌, ◌%◌, Bool, true, false, not, ◌&&◌, ◌||◌, List, [], ◌∷◌, ◌++◌,
  if◌then◌else◌, leb, ◌==◌, length,
}
use fers.Floats.{Floats}
use fers.Schedule.{SchedulePeriod}
use fers.Simulation.Sources.{ActiveStreamingSource, to_count}
use fers.Simulation.Radar.{is_pulsed, one}
use fers.Simulation.Streams.{Setup, emit_context_heartbeat}
use fers.Simulation.Streams.Blocks.{
  State, call, set_stream, ensure_stream_open, flush_blocks, is_empty, streaming_output_block_size,
  input_sample_rate,
}

module _ (F : Floats) (S : Type 0) (setup : Setup F S) where
  open F use {R, double}
  open setup use {
    receivers, receiver_at, dechirp_enabled, start_time, rate, oversample_ratio, c, infinity,
    world_bounding_diameter, max_propagation_legs, eager_context_stream_open, received, still_live,
  }

  abbrev Source : Type 0
  Source = ActiveStreamingSource R

  abbrev pub Now : Type 0
  Now = State F S setup

  -- `isCancellationRequested`, whose result is the field `cancelled` after it.
  unfoldable pub ask : List Bool → Bool × List Bool
  ask [] = (false, [])
  ask (answer ∷ answers) = (answer, answers)

  unfoldable pub poll : Now → Now
  poll s =
      if s.cancelled
      then s
      else record s { cancelled = (ask s.answers).0; answers = (ask s.answers).1 }

  -- `emitContextHeartbeatsThrough`.
  unfoldable pub emit_context_heartbeats_through : R → Now → Now
  emit_context_heartbeats_through time s =
      let next = s.next_context_heartbeat_time in
      if double.lt time next
      then s
      else if double.lt (double.sub time next) (one F)
      then call F S setup (emit_context_heartbeat next)
          (record s { next_context_heartbeat_time = double.add next (one F) })
      else call F S setup (emit_context_heartbeat time)
          (record s { next_context_heartbeat_time = double.add time (one F) })

  unfoldable pub is_streaming_receiver : ℕ → Bool
  is_streaming_receiver rx = not (is_pulsed (receiver_at rx).mode)

  -- `streamingSourceCoarseCleanupDeadline`.
  unfoldable pub coarse_cleanup_deadline : Source → R
  coarse_cleanup_deadline source =
      if double.le c (double.of_ℕ 0) || not (double.is_finite world_bounding_diameter)
      then infinity
      else double.add source.segment_end
          (double.mul (double.div world_bounding_diameter c) (double.of_ℕ max_propagation_legs))

  unfoldable pub any_period : R → R → List (SchedulePeriod F) → Bool
  any_period from deadline [] = false
  any_period from deadline (p ∷ periods) =
      double.lt from p.end && double.lt p.start deadline || any_period from deadline periods

  unfoldable pub might_observe : R → R → List ℕ → Bool
  might_observe from deadline [] = false
  might_observe from deadline (rx ∷ others) =
      let rest = might_observe from deadline others in
      let schedule = (receiver_at rx).schedule in
      if is_streaming_receiver rx && (is_empty schedule || any_period from deadline schedule)
      then true
      else rest

  -- `mightAnyReceiverStillObserve`.
  abbrev pub might_any_receiver_still_observe : R → R → Bool
  might_any_receiver_still_observe from deadline = might_observe from deadline receivers

  unfoldable pub keep_if : (Source → Bool) → List Source → List Source
  keep_if keep [] = []
  keep_if keep (source ∷ sources) =
      let rest = keep_if keep sources in if keep source then source ∷ rest else rest

  unfoldable pub still_needed : R → Source → Bool
  still_needed from source =
      let deadline = coarse_cleanup_deadline source in
      double.lt from source.segment_end
      || (double.lt from deadline && might_any_receiver_still_observe from deadline)

  -- `cleanupInactiveStreamingSources`.
  unfoldable pub cleanup_inactive_sources : R → Now → Now
  cleanup_inactive_sources from s = record s { sources = keep_if (still_needed from) s.sources }

  -- Whether a source's flag is set by one of the receivers, at a sample.
  unfoldable pub heard : Now → ℕ → List ℕ → Source → Bool
  heard s index [] source = false
  heard s index (rx ∷ others) source =
      is_streaming_receiver rx && s.active rx && still_live rx index source
      || heard s index others source

  unfoldable pub all_active : Now → List ℕ → Bool
  all_active s [] = true
  all_active s (rx ∷ others) =
      (not (is_streaming_receiver rx) || s.active rx) && all_active s others

  -- `pruneConfirmedDeadStreamingSources`.
  unfoldable pub prune_dead_sources : R → ℕ → Now → Now
  prune_dead_sources t index s = record s {
    sources =
        keep_if (λ source. double.lt t source.segment_end || heard s index receivers source)
          s.sources;
  }

  -- `streamingOutputSampleRate`.
  unfoldable pub streaming_output_sample_rate : ℕ → R
  streaming_output_sample_rate rx = if dechirp_enabled rx then input_sample_rate F S setup else rate

  unfoldable pub push_sample : ℕ → ℕ → R → S → Now → Now
  push_sample rx index t sample s =
      let stream = s.streams rx in
      let started =
        (if is_empty stream.buffer
          then record stream { block_start_time = t; block_start_index = index }
          else stream) in
      set_stream F S setup rx (record started { buffer = started.buffer ++ sample ∷ [] }) s

  -- `appendStreamingOutputSample`.
  unfoldable pub append_output_sample : ℕ → ℕ → R → S → Now → Now
  append_output_sample rx index t sample s =
      let opened =
        (if eager_context_stream_open
          then ensure_stream_open F S setup rx t (streaming_output_sample_rate rx) s
          else s) in
      push_sample rx index t sample opened

  -- `appendReceiverStreamingSample`, without a resampler.
  unfoldable pub append_receiver_sample : ℕ → ℕ → R → Now → Now
  append_receiver_sample rx index t s =
      if not (is_streaming_receiver rx) || not (s.active rx)
      then s
      else append_output_sample rx index t (received rx index s.sources) s

  unfoldable pub append_receivers : List ℕ → ℕ → R → Now → Now
  append_receivers [] index t s = s
  append_receivers (rx ∷ others) index t s =
      append_receivers others index t (append_receiver_sample rx index t s)

  unfoldable pub any_full : Now → List ℕ → Bool
  any_full s [] = false
  any_full s (rx ∷ others) =
      leb (streaming_output_block_size F S setup) (length (s.streams rx).buffer)
      || any_full s others

  unfoldable pub flush_when_full : Now → Now
  flush_when_full s = if any_full s receivers then flush_blocks F S setup true s else s

  -- `appendActiveReceiverStreamingSamples`.
  unfoldable pub append_active_samples : ℕ → R → Now → Now
  append_active_samples index t s =
      let sampled = append_receivers receivers index t s in
      flush_when_full
        (if all_active s receivers then prune_dead_sources t index sampled else sampled)

  abbrev pub dt_sim : R
  dt_sim = double.div (one F) (input_sample_rate F S setup)

  -- `streamingSampleIndexAtOrAfter`.
  unfoldable pub sample_index_at_or_after : R → ℕ
  sample_index_at_or_after time =
      if double.le dt_sim (double.of_ℕ 0) || double.le time start_time
      then 0
      else to_count F (double.to_ℤ (double.ceil (double.div (double.sub time start_time) dt_sim)))

  -- `processStreamingSample`.
  unfoldable pub process_streaming_sample : ℕ → Now → Now
  process_streaming_sample index s =
      let t = double.add start_time (double.mul (double.of_ℕ index) dt_sim) in
      let sampled = append_active_samples index t s in
      if double.le sampled.next_context_heartbeat_time t
      then emit_context_heartbeats_through t sampled
      else sampled

  -- `shouldStopStreamingChunk`, whose result is `stops` after it.
  unfoldable pub poll_chunk : ℕ → Now → Now
  poll_chunk offset s = if offset % 1024 == 0 then poll s else s

  abbrev pub stops : ℕ → Now → Bool
  stops offset s = offset % 1024 == 0 && s.cancelled

  -- The loop over the samples: how many are left, and how many have been taken since the first.
  unfoldable pub sample_loop : ℕ → ℕ → ℕ → Now → Now
  sample_loop zero first offset s = s
  sample_loop (suc left) first offset s =
      let polled = poll_chunk offset s in
      let rest =
        sample_loop left first (offset + 1) (process_streaming_sample (first + offset) polled) in
      if stops offset polled then polled else rest

  -- `processStreamingPhysics`, from the current time to an event's.
  unfoldable pub process_streaming_physics : R → R → Now → Now
  process_streaming_physics t_current t_event s =
      let first = sample_index_at_or_after t_current in
      let polled = poll s in
      let cleaned = cleanup_inactive_sources t_current polled in
      let sampled = sample_loop (sample_index_at_or_after t_event - first) first 0 cleaned in
      if double.le t_event t_current
      then s
      else if polled.cancelled
      then cleanup_inactive_sources t_current polled
      else cleanup_inactive_sources t_event (emit_context_heartbeats_through t_event sampled)

  -- The current time after it: it stays where the run is cancelled at the start.
  unfoldable pub physics_time : R → R → Now → R
  physics_time t_current t_event s =
      if double.le t_event t_current || (poll s).cancelled then t_current else t_event
