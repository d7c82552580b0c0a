-- ===== src/Simulation/Streams/Blocks.antt =====
-- The blocks of one receiver: `ensureStreamingOutputStreamOpen`, `emitStreamingOutputBlock`,
-- `streamingDownsampler`, `flushStreamingOutputBlock` and `flushStreamingOutputBlocks`.
use fers.Base.{
  ℕ, ◌+◌, ◌/◌, ◌%◌, ◌^◌, max, Bool, true, false, not, ◌&&◌, ◌||◌, List, [], ◌∷◌, ◌++◌, Option, none,
  some, if◌then◌else◌, leb, ltb, ◌==◌, length,
}
use fers.Floats.{Floats}
use fers.Simulation.Streams.{
  Setup, Stream, SampleBlock, SinkCall, register_stream, open_stream, submit_blocks, Streaming,
}

abbrev pub is_empty : {A : Type 0} → List A → Bool
is_empty [] = true
is_empty (x ∷ xs) = false

module _ (F : Floats) (S : Type 0) (setup : Setup F S) where
  open F use {R, double}
  open setup use {
    receivers, dechirp_enabled, rate, oversample_ratio, with_interference, with_noise, filters,
  }
  open filters use {Filter, new_filter, ratio, output_sample_count, consume, finish, take_output}

  abbrev pub State : Type 0
  State = Streaming R S Filter

  abbrev pub Block : Type 0
  Block = SampleBlock R S

  -- The engine with another entry for one receiver.
  abbrev pub set_stream : ℕ → Stream R S Filter → State → State
  set_stream rx stream s = record s {
    streams = λ other. if other == rx then stream else s.streams other;
  }

  abbrev pub call : SinkCall R S → State → State
  call c s = record s { calls = c ∷ s.calls }

  unfoldable pub register_once : ℕ → R → State → State
  register_once rx sample_rate s =
      if (s.streams rx).registered
      then s
      else call (register_stream rx sample_rate)
          (set_stream rx (record (s.streams rx) { registered = true }) s)

  unfoldable pub describe : ℕ → State → State
  describe rx s = set_stream rx (record (s.streams rx) { described = true }) s

  unfoldable pub open_once : ℕ → R → State → State
  open_once rx time s =
      if (s.streams rx).stream_open
      then s
      else call (open_stream rx time)
          (set_stream rx (record (s.streams rx) { stream_open = true }) s)

  -- `ensureStreamingOutputStreamOpen`.
  unfoldable pub ensure_stream_open : ℕ → R → R → State → State
  ensure_stream_open rx time sample_rate s =
      let stream = s.streams rx in
      if double.le sample_rate (double.of_ℕ 0)
        || (stream.registered && stream.stream_open && stream.described)
      then s
      else open_once rx time (describe rx (register_once rx sample_rate s))

  unfoldable pub advance_cursor : ℕ → ℕ → State → State
  advance_cursor rx cursor s =
      set_stream rx (record (s.streams rx) { sample_cursor = cursor % 2 ^ 64 }) s

  -- `emitStreamingOutputBlock`, with the block that it makes.
  unfoldable pub emit_block : ℕ → R → R → List S → ℕ → State → State × List Block
  emit_block rx time sample_rate samples sample_start s =
      let processed = with_noise rx sample_start samples in
      if is_empty samples then (s, []) else (
        advance_cursor rx (sample_start + length processed)
            (ensure_stream_open rx time sample_rate s),
        record {
          receiver = rx;
          first_sample_time = time;
          sample_rate = sample_rate;
          samples = processed;
          sample_start = sample_start;
        }
            ∷ [],
      )

  abbrev pub set_downsampler : ℕ → Option Filter → State → State
  set_downsampler rx filter s = set_stream rx (record (s.streams rx) { downsampler = filter }) s

  -- `streamingDownsampler`: the filter, which is new where there is none.
  unfoldable pub start_downsampler : ℕ → ℕ → R → State → State
  start_downsampler rx input_start_index segment_start_time s = elim ((s.streams rx).downsampler) [
    | some filter ↦ s
    | none ↦
        set_stream rx
          (record (s.streams rx) {
            downsampler = some new_filter;
            base_index = input_start_index / max 1 ratio;
            segment_start_time = segment_start_time;
          })
          s
  ]

  unfoldable pub filter_of : ℕ → State → Filter
  filter_of rx s = elim ((s.streams rx).downsampler) [ some filter ↦ filter | none ↦ new_filter ]

  -- The output of a filter as a block, at the place that its count of samples gives.
  unfoldable pub emit_filtered : ℕ → ℕ → List S → State → State × List Block
  emit_filtered rx output_start_index output s =
      emit_block rx
        (double.add ((s.streams rx).segment_start_time)
          (double.div (double.of_ℕ output_start_index) rate))
        rate output (((s.streams rx).base_index + output_start_index) % 2 ^ 64) s

  -- `flushStreamingOutputBlock` of an empty buffer.
  unfoldable pub flush_downsampler : ℕ → Option Filter → State → State × List Block
  flush_downsampler rx none s = (s, [])
  flush_downsampler rx (some filter) s =
      let taken = take_output (finish filter) in
      let emitted =
        emit_filtered rx (output_sample_count filter) taken.0
          (set_downsampler rx (some taken.1) s) in
      (set_downsampler rx none emitted.0, emitted.1)

  -- The end of a flush: the buffer is cleared, and a finished filter dropped.
  unfoldable pub clear_block : ℕ → Bool → State → State
  clear_block rx finished s =
      set_stream rx
        (record (s.streams rx) {
          buffer = [];
          downsampler = if finished then none else (s.streams rx).downsampler;
        })
        s

  abbrev pub input_sample_rate : R
  input_sample_rate = double.mul rate (double.of_ℕ oversample_ratio)

  unfoldable pub flush_filtered : ℕ → Bool → List S → State → State × List Block
  flush_filtered rx finished block s =
      let started =
        start_downsampler rx (s.streams rx).block_start_index (s.streams rx).block_start_time s in
      let filter = filter_of rx started in
      let consumed = consume block filter in
      let taken = take_output (if finished then finish consumed else consumed) in
      emit_filtered rx (output_sample_count filter) taken.0
        (set_downsampler rx (some taken.1) started)

  -- A block that is not filtered: dechirped at the input rate, or not oversampled.
  unfoldable pub flush_unfiltered : ℕ → List S → State → State × List Block
  flush_unfiltered rx block s =
      emit_block rx (s.streams rx).block_start_time
        (if dechirp_enabled rx then input_sample_rate else rate) block
        (s.streams rx).block_start_index s

  unfoldable pub flush_full_block : ℕ → Bool → State → State × List Block
  flush_full_block rx finished s =
      let block = with_interference rx (s.streams rx).block_start_time (s.streams rx).buffer in
      let flushed =
        (if not (dechirp_enabled rx) && ltb 1 oversample_ratio
          then flush_filtered rx finished block s
          else flush_unfiltered rx block s) in
      (clear_block rx finished flushed.0, flushed.1)

  -- `flushStreamingOutputBlock`. The block that it emits is returned: the caller puts it in its batch,
  -- or `submit_each` submits it.
  unfoldable pub flush_block : ℕ → Bool → State → State × List Block
  flush_block rx finished s =
      if is_empty ((s.streams rx).buffer)
      then (if finished then flush_downsampler rx (s.streams rx).downsampler s else (s, []))
      else flush_full_block rx finished s

  -- `submitBlock` for a block, and none for no block.
  unfoldable pub submit_each : State × List Block → State
  submit_each (s, []) = s
  submit_each (s, block ∷ blocks) = call (submit_blocks (block ∷ blocks)) s

  abbrev pub streaming_output_block_size : ℕ
  streaming_output_block_size = 4096

  unfoldable pub flush_if_full : Bool → ℕ → State → State × List Block
  flush_if_full full_blocks_only rx s =
      if not full_blocks_only || leb streaming_output_block_size (length (s.streams rx).buffer)
      then flush_block rx false s
      else (s, [])

  unfoldable pub gather : Bool → List ℕ → State → State × List Block
  gather full_blocks_only [] s = (s, [])
  gather full_blocks_only (rx ∷ others) s =
      let flushed = flush_if_full full_blocks_only rx s in
      let rest = gather full_blocks_only others flushed.0 in (rest.0, flushed.1 ++ rest.1)

  -- `flushStreamingOutputBlocks`: one call for the whole batch, and none for an empty batch.
  unfoldable pub flush_blocks : Bool → State → State
  flush_blocks full_blocks_only s = submit_each (gather full_blocks_only receivers s)
