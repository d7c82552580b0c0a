-- ===== src/Simulation/Streams/Untouched.antt =====
-- Flushing one receiver's blocks leaves the entries of the others alone.
use fers.Base.{
  ℕ, ◌≡◌, refl, ◌∙◌, Bool, true, false, List, [], ◌∷◌, Option, none, some, if◌then◌else◌, arith,
  ◌==◌,
}
use fers.Floats.{Floats}
use fers.Simulation.Streams.{Setup, Stream}
use fers.Simulation.Streams.Blocks.{
  State, Block, set_stream, register_once, describe, open_once, ensure_stream_open, advance_cursor,
  emit_block, start_downsampler, emit_filtered, flush_downsampler, clear_block, flush_filtered,
  flush_unfiltered, flush_full_block, flush_block, submit_each,
}

module _ (F : Floats) (S : Type 0) (setup : Setup F S) (i rx : ℕ) (other : (i == rx) ≡ false) where
  open F use {R, double}
  open setup use {filters}
  open filters use {Filter, output_sample_count}

  abbrev Now : Type 0
  Now = State F S setup

  pub data Untouched (s s' : Now) : Type 0 where
    untouched : s'.streams i ≡ s.streams i → Untouched s s'

  pub same : {s s' : Now} → Untouched s s' → s'.streams i ≡ s.streams i
  same (untouched e) = e

  Untouched-trans : {a b c : Now} → Untouched a b → Untouched b c → Untouched a c
  Untouched-trans f g = untouched (same g ∙ same f)

  Untouched-if :
      (b : Bool) {s x y : Now} → Untouched s x → Untouched s y → Untouched s (if b then x else y)
  Untouched-if true f g = f
  Untouched-if false f g = g

  Untouched-refl : (s : Now) → Untouched s s
  Untouched-refl s = untouched refl

  set_stream-Untouched :
      (stream : Stream R S Filter) (s : Now) → Untouched s (set_stream F S setup rx stream s)
  set_stream-Untouched stream s = untouched (ground (arith, other))

  register_once-Untouched : (rate : R) (s : Now) → Untouched s (register_once F S setup rx rate s)
  unfolding register_once
  register_once-Untouched rate s = untouched (ground (arith, other))

  open_once-Untouched : (time : R) (s : Now) → Untouched s (open_once F S setup rx time s)
  unfolding open_once
  open_once-Untouched time s = untouched (ground (arith, other))

  ensure_stream_open-Untouched :
      (time rate : R) (s : Now) → Untouched s (ensure_stream_open F S setup rx time rate s)
  unfolding ensure_stream_open describe
  ensure_stream_open-Untouched time rate s = Untouched-if _ (Untouched-refl s) (
      Untouched-trans (register_once-Untouched rate s) (
        Untouched-trans (set_stream-Untouched _ (register_once F S setup rx rate s))
          (open_once-Untouched time _)))

  emit_block-Untouched :
      (time rate : R) (samples : List S) (start : ℕ) (s : Now)
      → Untouched s (emit_block F S setup rx time rate samples start s).0
  unfolding emit_block advance_cursor
  emit_block-Untouched time rate samples start s = by_samples samples
    where
      by_samples :
          (samples : List S) → Untouched s (emit_block F S setup rx time rate samples start s).0
      by_samples [] = Untouched-refl s
      by_samples (x ∷ samples) =
          Untouched-trans (ensure_stream_open-Untouched time rate s) (set_stream-Untouched _ _)

  emit_filtered-Untouched :
      (index : ℕ) (output : List S) (s : Now)
      → Untouched s (emit_filtered F S setup rx index output s).0
  unfolding emit_filtered
  emit_filtered-Untouched index output s = emit_block-Untouched _ _ output _ s

  flush_downsampler-Untouched :
      (filter : Option Filter) (s : Now) → Untouched s (flush_downsampler F S setup rx filter s).0
  unfolding flush_downsampler
  flush_downsampler-Untouched none s = Untouched-refl s
  flush_downsampler-Untouched (some filter) s =
      Untouched-trans (set_stream-Untouched _ s)
        (Untouched-trans (emit_filtered-Untouched _ _ _) (set_stream-Untouched _ _))

  start_downsampler-Untouched :
      (index : ℕ) (time : R) (s : Now) → Untouched s (start_downsampler F S setup rx index time s)
  unfolding start_downsampler
  start_downsampler-Untouched index time s = untouched (ground (arith, other))

  flush_filtered-Untouched :
      (finished : Bool) (block : List S) (s : Now)
      → Untouched s (flush_filtered F S setup rx finished block s).0
  unfolding flush_filtered
  flush_filtered-Untouched finished block s =
      Untouched-trans (start_downsampler-Untouched _ _ s)
        (Untouched-trans (set_stream-Untouched _ _) (emit_filtered-Untouched _ _ _))

  flush_unfiltered-Untouched :
      (block : List S) (s : Now) → Untouched s (flush_unfiltered F S setup rx block s).0
  unfolding flush_unfiltered
  flush_unfiltered-Untouched block s = emit_block-Untouched _ _ block _ s

  flush_full_block-Untouched :
      (finished : Bool) (s : Now) → Untouched s (flush_full_block F S setup rx finished s).0
  unfolding flush_full_block clear_block
  flush_full_block-Untouched finished s =
      let block =
        setup.with_interference rx (s.streams rx).block_start_time (s.streams rx).buffer in
      untouched (
        ground (
          arith,
          other,
          same (flush_filtered-Untouched finished block s),
          same (flush_unfiltered-Untouched block s),
        ))

  flush_block-Untouched :
      (finished : Bool) (s : Now) → Untouched s (flush_block F S setup rx finished s).0
  unfolding flush_block
  flush_block-Untouched finished s = untouched (
      ground (
        arith,
        same (flush_downsampler-Untouched (s.streams rx).downsampler s),
        same (flush_full_block-Untouched finished s),
      ))

  submit_each-Untouched :
      (s : Now) (r : Now × List (Block F S setup))
      → Untouched s r.0
      → Untouched s (submit_each F S setup r)
  unfolding submit_each
  submit_each-Untouched s (s', []) u = u
  submit_each-Untouched s (s', block ∷ blocks) u = untouched (same u)

  pub flush_last-Untouched :
      (s : Now) → Untouched s (submit_each F S setup (flush_block F S setup rx true s))
  flush_last-Untouched s = submit_each-Untouched s _ (flush_block-Untouched true s)
