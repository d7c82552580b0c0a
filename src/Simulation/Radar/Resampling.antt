-- ===== src/Simulation/Radar/Resampling.antt =====
-- The resampling of a dechirped receiver's samples to its intermediate-frequency rate: the methods of
-- `Receiver` in packages/libfers/src/radar/receiver.cpp that feed the resampler and place what it puts
-- out. The resampler is a parameter.
pub mod Calls
pub mod Placement
use fers.Base.{
  ℕ, ◌+◌, ◌-◌, ◌^◌, ◌%◌, min, Bool, true, false, not, ◌||◌, List, [], ◌∷◌, Option, none, some,
  Result, ok, err, ◌>>=◌, ◌>>◌, throw_if, logic_error, if◌then◌else◌, leb, ltb, ◌==◌, length, drop,
}
use fers.Base.Int.{ℤ}
use fers.Floats.{Floats}
use fers.Schedule.{later}
use fers.Simulation.Sources.{to_count}
use fers.Simulation.Radar.{one, abs}

-- `FmcwIfResamplingSink` of packages/libfers/src/signal/if_resampler.h: what each call makes of the
-- resampler. Zeros give samples that are still to come, and a number of zeros that is skipped.
pub record Resampler (S : Type 0) : Type 1 where
  pub Filter : Type 0
  pub consume : List S → Filter → Filter
  pub consume_zero_input : ℕ → Filter → (List S × ℕ) × Filter
  pub take_output : Filter → List S × Filter
  pub finish : Filter → List S

pub record ResamplerPlan (R : Type 0) : Type 0 where
  pub input_sample_rate : R
  pub actual_output_sample_rate : R
  pub group_delay : R
  pub warmup_discard_samples : ℕ

-- The members `_fmcw_if_...`; `sink` is none where the pointer is null. `emitted` lists what the output
-- callback was called with, the latest first: where a block starts, and its samples. `advanced` is the
-- number of samples by which the output cursor, which has 64 bits, was advanced in all.
pub record IfChain (R S Filter : Type 0) : Type 0 where
  pub plan : Option (ResamplerPlan R)
  pub sink : Option Filter
  pub samples_to_discard : ℕ
  pub input_cursor : ℕ
  pub output_cursor : ℕ
  pub advanced : ℕ
  pub segment_active : Bool
  pub emitted : List (ℕ × List S)

module _ (F : Floats) (S : Type 0) (resampler : Resampler S) (start_time end_time : F.R) where
  open F use {R, double}
  open resampler use {Filter, consume, consume_zero_input, take_output, finish}

  abbrev pub Chain : Type 0
  Chain = IfChain R S Filter

  -- `ceilSampleIndexAtOrAfter`.
  unfoldable pub ceil_sample_index : R → R → ℕ
  ceil_sample_index time sample_rate =
      let raw_index = double.mul (double.sub time start_time) sample_rate in
      let nearest = double.round raw_index in
      let tolerance =
        double.mul (double.div (one F) (double.of_ℕ (10 ^ 5))) (later F (one F) (abs F nearest)) in
      if double.le sample_rate (double.of_ℕ 0) || double.le time start_time
      then 0
      else if double.le (abs F (double.sub raw_index nearest)) tolerance
      then to_count F (double.to_ℤ nearest)
      else to_count F (double.to_ℤ (double.ceil raw_index))

  unfoldable pub initialize_resampling : ResamplerPlan R → Filter → Chain → Chain
  initialize_resampling plan filter chain = record chain {
    plan = some plan;
    samples_to_discard = plan.warmup_discard_samples;
    sink = some filter;
    input_cursor = 0;
    output_cursor = 0;
    advanced = 0;
    segment_active = false;
  }

  -- The first part of `appendFmcwIfOutput` and `advanceFmcwIfOutputZeros`: the warm-up is discarded.
  abbrev pub discarded : ℕ → Chain → ℕ
  discarded count chain = min chain.samples_to_discard count

  unfoldable pub emit_output : List S → Chain → Chain
  emit_output [] chain = chain
  emit_output (x ∷ samples) chain = record chain {
    emitted = (chain.output_cursor, x ∷ samples) ∷ chain.emitted;
    output_cursor = (chain.output_cursor + length (x ∷ samples)) % 2 ^ 64;
    advanced = chain.advanced + length (x ∷ samples);
  }

  -- `appendFmcwIfOutput`, with a callback.
  unfoldable pub append_output : List S → Chain → Chain
  append_output samples chain =
      let discard = discarded (length samples) chain in
      emit_output (drop discard samples)
        (record chain { samples_to_discard = chain.samples_to_discard - discard })

  -- `advanceFmcwIfOutputZeros`.
  unfoldable pub advance_output_zeros : ℕ → Chain → Chain
  advance_output_zeros count chain =
      let discard = discarded count chain in
      record chain {
        samples_to_discard = chain.samples_to_discard - discard;
        output_cursor = (chain.output_cursor + (count - discard)) % 2 ^ 64;
        advanced = chain.advanced + (count - discard);
      }

  unfoldable pub feed_zeros : ℕ → Filter → Chain → Chain
  feed_zeros target filter chain =
      let result = consume_zero_input (target - chain.input_cursor) filter in
      advance_output_zeros result.0.1
        (append_output result.0.0 (record chain { sink = some result.1; input_cursor = target }))

  -- `consumeFmcwIfZerosUntil`.
  unfoldable pub consume_zeros_until : ℕ → Chain → Result Chain
  consume_zeros_until target chain = elim chain.sink [
    | none ↦ err logic_error
    | some filter ↦
        ok (if leb target chain.input_cursor then chain else feed_zeros target filter chain)
  ]

  -- `beginFmcwIfResamplingSegment`, where there are a sink and a plan.
  unfoldable pub begin_with : ResamplerPlan R → R → Chain → Result Chain
  begin_with plan time chain = do
    fed ← consume_zeros_until (ceil_sample_index time plan.input_sample_rate) chain
    ok (record fed { segment_active = true })

  unfoldable pub begin_segment : R → Chain → Result Chain
  begin_segment time chain = elim chain.sink [
    | none ↦ ok chain
    | some filter ↦ elim chain.plan [ none ↦ ok chain | some plan ↦ begin_with plan time chain ]
  ]

  -- `_fmcw_if_sink->consume(block)` and the output that it has then.
  unfoldable pub feed_block : List S → Chain → Result Chain
  feed_block block chain = elim chain.sink [
    | none ↦ err logic_error
    | some filter ↦
        (let taken = take_output (consume block filter) in
          ok (
            append_output taken.0 (record chain {
              sink = some taken.1;
              input_cursor = (chain.input_cursor + length block) % 2 ^ 64;
            })))
  ]

  unfoldable pub consume_in_order : ResamplerPlan R → List S → R → Chain → Result Chain
  consume_in_order plan block time chain = do
    begun ← (if chain.segment_active then ok chain else begin_segment time chain)
    throw_if (ltb (ceil_sample_index time plan.input_sample_rate) begun.input_cursor) logic_error
    fed ← consume_zeros_until (ceil_sample_index time plan.input_sample_rate) begun
    feed_block block fed

  -- `consumeFmcwIfBlock`.
  unfoldable pub consume_block : List S → R → Chain → Result Chain
  consume_block block time chain = elim chain.sink [
    | none ↦ err logic_error
    | some filter ↦ elim chain.plan [
      | none ↦ err logic_error
      | some plan ↦ consume_in_order plan block time chain
    ]
  ]

  -- `endFmcwIfResamplingSegment`.
  unfoldable pub end_segment : Chain → Chain
  end_segment chain = elim chain.sink [
    | none ↦ chain
    | some filter ↦ record chain { segment_active = false }
  ]

  unfoldable pub finish_output : Chain → Chain
  finish_output chain = elim chain.sink [
    | none ↦ chain
    | some filter ↦ append_output (finish filter) chain
  ]

  unfoldable pub flush_with : Option (ResamplerPlan R) → Chain → Result Chain
  flush_with none chain = ok chain
  flush_with (some plan) chain = do
    let flush_until =
        double.add (double.add end_time plan.group_delay)
          (double.div (one F) plan.actual_output_sample_rate)
    fed ← consume_zeros_until (ceil_sample_index flush_until plan.input_sample_rate) chain
    ok (finish_output fed)

  -- `flushFmcwIfResampling`.
  unfoldable pub flush_resampling : Chain → Result Chain
  flush_resampling chain = elim chain.sink [
    | none ↦ ok chain
    | some filter ↦ (do
      flushed ← flush_with chain.plan (end_segment chain)
      ok (record flushed { sink = none }))
  ]
