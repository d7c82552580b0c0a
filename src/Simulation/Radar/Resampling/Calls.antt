-- ===== src/Simulation/Radar/Resampling/Calls.antt =====
-- The calls that the engine makes for a receiver with a resampler, one after the other.
use fers.Base.{List, [], ◌∷◌, Result, ok, ◌>>=◌}
use fers.Floats.{Floats}
use fers.Simulation.Radar.Resampling.{
  Resampler, Chain, begin_segment, consume_block, end_segment, flush_resampling,
}

-- A call of one of the methods.
pub data IfEvent (R S : Type 0) : Type 0 where
  segment_begins : R → IfEvent R S
  block_comes : List S → R → IfEvent R S
  segment_ends : IfEvent R S
  flushed : IfEvent R S

module _ (F : Floats) (S : Type 0) (resampler : Resampler S) (start_time end_time : F.R) where
  open F use {R, double}
  open resampler use {Filter}

  abbrev Now : Type 0
  Now = Chain F S resampler start_time end_time

  -- The events of a history, up to one that throws.
  unfoldable pub if_step : IfEvent R S → Now → Result Now
  if_step (segment_begins time) chain = begin_segment F S resampler start_time end_time time chain
  if_step (block_comes block time) chain =
      consume_block F S resampler start_time end_time block time chain
  if_step segment_ends chain = ok (end_segment F S resampler start_time end_time chain)
  if_step flushed chain = flush_resampling F S resampler start_time end_time chain

  unfoldable pub if_run : List (IfEvent R S) → Now → Result Now
  if_run [] chain = ok chain
  if_run (e ∷ events) chain = do next ← if_step e chain; if_run events next
