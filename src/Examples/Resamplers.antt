-- ===== src/Examples/Resamplers.antt =====
-- A resampled receiver that gets a block of three samples after two samples of silence.
use fers.Base.{arith, ℕ, ◌*◌, ◌≡◌, refl, false, none, some, [], ◌∷◌, List, Result, ok, ◌++◌}
use fers.Schedule.{later}
use fers.Simulation.Sources.{to_count}
use fers.Simulation.Radar.{abs}
use fers.Simulation.Radar.Resampling.{
  Resampler, ResamplerPlan, IfChain, initialize_resampling, begin_segment, begin_with,
  consume_zeros_until, consume_block, ceil_sample_index, feed_zeros, advance_output_zeros,
  append_output, emit_output, consume_in_order, feed_block, end_segment, finish_output,
  flush_resampling, flush_with,
}
use fers.Simulation.Radar.Resampling.Calls.{
  IfEvent, segment_begins, block_comes, segment_ends, flushed, if_step, if_run,
}
use fers.Simulation.Radar.Resampling.Placement.{Placed, if_run-InPlace}
use fers.Examples.Fixed.{unit, numbers}

-- A filter that passes its samples on, and skips the zeros.
abbrev pass_on : Resampler ℕ
pass_on = record {
  Filter = List ℕ;
  consume = λ samples filter. filter ++ samples;
  consume_zero_input = λ count filter. ((filter, count), []);
  take_output = λ filter. (filter, []);
  finish = λ filter. filter;
}

-- The first sample that comes out is discarded.
abbrev plan : ResamplerPlan ℕ
plan = record {
  input_sample_rate = unit;
  actual_output_sample_rate = unit;
  group_delay = 0;
  warmup_discard_samples = 1;
}

abbrev empty : IfChain ℕ ℕ (List ℕ)
empty = record {
  plan = none;
  sink = none;
  samples_to_discard = 0;
  input_cursor = 0;
  output_cursor = 0;
  advanced = 0;
  segment_active = false;
  emitted = [];
}

abbrev calls : List (IfEvent ℕ ℕ)
calls =
    segment_begins (2 * unit)
    ∷ block_comes (7 ∷ 8 ∷ 9 ∷ []) (2 * unit)
    ∷ segment_ends
    ∷ block_comes (5 ∷ []) (6 * unit)
    ∷ flushed
    ∷ []

abbrev after_calls : Result (IfChain ℕ ℕ (List ℕ))
after_calls =
    if_run numbers ℕ pass_on 0 (8 * unit) calls
      (initialize_resampling numbers ℕ pass_on 0 (8 * unit) plan [] empty)

abbrev flushed_chain : IfChain ℕ ℕ (List ℕ)
flushed_chain = record {
  plan = some plan;
  sink = none;
  samples_to_discard = 0;
  input_cursor = 9;
  output_cursor = 8;
  advanced = 8;
  segment_active = false;
  emitted = (5, 5 ∷ []) ∷ (1, 7 ∷ 8 ∷ 9 ∷ []) ∷ [];
}

after_calls_lem : after_calls ≡ ok flushed_chain
unfolding if_run if_step begin_segment initialize_resampling begin_with consume_zeros_until
    consume_block ceil_sample_index abs later to_count feed_zeros advance_output_zeros append_output
    emit_output consume_in_order feed_block end_segment finish_output flush_resampling flush_with
after_calls_lem = refl

if_run-InPlace_example :
    Placed numbers ℕ pass_on 0 (8 * unit) 8 ((5, 5 ∷ []) ∷ (1, 7 ∷ 8 ∷ 9 ∷ []) ∷ [])
if_run-InPlace_example =
    if_run-InPlace numbers ℕ pass_on 0 (8 * unit) plan [] empty calls flushed_chain refl
      after_calls_lem (omega arith)
