-- ===== src/Simulation/Streams/Sampled.antt =====
-- Sampling keeps every stream's session.
use fers.Base.{ℕ, zero, suc, ◌≡◌, refl, ◌∙◌, true, false, List, [], ◌∷◌, arith, ◌+◌}
use fers.Floats.{Floats}
use fers.Simulation.Streams.{Setup}
use fers.Simulation.Streams.Blocks.{input_sample_rate}
use fers.Simulation.Streams.Sampling.{
  Now, poll, all_active, emit_context_heartbeats_through, push_sample, append_output_sample,
  append_receiver_sample, append_receivers, flush_when_full, append_active_samples,
  process_streaming_sample, poll_chunk, stops, sample_loop, process_streaming_physics,
  cleanup_inactive_sources, prune_dead_sources, streaming_output_sample_rate,
}
use fers.Simulation.Streams.Session.{
  session, next_stage, Session, is_open, Keeps, kept, Keeps-refl, Keeps-trans, Keeps-if,
  set_stream-Keeps, ensure_stream_open-Keeps,
}
use fers.Simulation.Streams.Emission.{flush_blocks-Keeps}

module _ (F : Floats) (S : Type 0) (setup : Setup F S) (i : ℕ)
    (positive : F.double.le setup.rate (F.double.of_ℕ 0) ≡ false)
    (positive_input : F.double.le (input_sample_rate F S setup) (F.double.of_ℕ 0) ≡ false) where
  open F use {R, double}
  open setup use {receivers}

  -- What leaves the streams and the calls as they are.
  pub quiet :
      (s s' : Now F S setup)
      → (Session F S setup i s → Session F S setup i s')
      → (is_open F S setup i s' ≡ is_open F S setup i s)
      → Keeps F S setup i s s'
  quiet s s' f e = kept (λ h. (f h, λ now. e ∙ now))

  trans :
      {a b c : Now F S setup}
      → Keeps F S setup i a b
      → Keeps F S setup i b c
      → Keeps F S setup i a c
  trans f g = Keeps-trans F S setup i f g

  pub poll-Keeps : (s : Now F S setup) → Keeps F S setup i s (poll F S setup s)
  unfolding poll
  poll-Keeps s = kept (λ h. ground arith)

  heartbeats-Keeps :
      (time : R) (s : Now F S setup)
      → Keeps F S setup i s (emit_context_heartbeats_through F S setup time s)
  unfolding emit_context_heartbeats_through session next_stage
  heartbeats-Keeps time s = kept (λ h. ground arith)

  push_sample-Keeps :
      (rx index : ℕ) (t : R) (sample : S) (s : Now F S setup)
      → Keeps F S setup i s (push_sample F S setup rx index t sample s)
  unfolding push_sample
  push_sample-Keeps rx index t sample s =
      set_stream-Keeps F S setup i rx _ s (ground arith) (ground arith)

  append_receiver_sample-Keeps :
      (rx index : ℕ) (t : R) (s : Now F S setup)
      → Keeps F S setup i s (append_receiver_sample F S setup rx index t s)
  unfolding append_receiver_sample append_output_sample
  append_receiver_sample-Keeps rx index t s = Keeps-if F S setup i _ (Keeps-refl F S setup i s) (
      trans
        (Keeps-if F S setup i setup.eager_context_stream_open
          (ensure_stream_open-Keeps F S setup i rx t (streaming_output_sample_rate F S setup rx) s)
          (Keeps-refl F S setup i s))
        (push_sample-Keeps rx index t _ _))

  append_receivers-Keeps :
      (rxs : List ℕ) (index : ℕ) (t : R) (s : Now F S setup)
      → Keeps F S setup i s (append_receivers F S setup rxs index t s)
  unfolding append_receivers
  append_receivers-Keeps [] index t s = Keeps-refl F S setup i s
  append_receivers-Keeps (rx ∷ others) index t s =
      trans (append_receiver_sample-Keeps rx index t s) (append_receivers-Keeps others index t _)

  flush_when_full-Keeps : (s : Now F S setup) → Keeps F S setup i s (flush_when_full F S setup s)
  unfolding flush_when_full
  flush_when_full-Keeps s =
      Keeps-if F S setup i _ (flush_blocks-Keeps F S setup i positive positive_input true s)
        (Keeps-refl F S setup i s)

  prune-Keeps :
      (t : R) (index : ℕ) (s : Now F S setup)
      → Keeps F S setup i s (prune_dead_sources F S setup t index s)
  unfolding prune_dead_sources
  prune-Keeps t index s = quiet s _ (λ h. h) refl

  append_active_samples-Keeps :
      (index : ℕ) (t : R) (s : Now F S setup)
      → Keeps F S setup i s (append_active_samples F S setup index t s)
  unfolding append_active_samples
  append_active_samples-Keeps index t s =
      let sampled = append_receivers F S setup receivers index t s in
      trans (append_receivers-Keeps receivers index t s) (
        trans
          (Keeps-if F S setup i (all_active F S setup s receivers) (prune-Keeps t index sampled)
            (Keeps-refl F S setup i sampled))
          (flush_when_full-Keeps _))

  process_streaming_sample-Keeps :
      (index : ℕ) (s : Now F S setup)
      → Keeps F S setup i s (process_streaming_sample F S setup index s)
  unfolding process_streaming_sample
  process_streaming_sample-Keeps index s =
      trans (append_active_samples-Keeps index _ s)
        (Keeps-if F S setup i _ (heartbeats-Keeps _ _) (Keeps-refl F S setup i _))

  poll_chunk-Keeps :
      (offset : ℕ) (s : Now F S setup) → Keeps F S setup i s (poll_chunk F S setup offset s)
  unfolding poll_chunk
  poll_chunk-Keeps offset s = Keeps-if F S setup i _ (poll-Keeps s) (Keeps-refl F S setup i s)

  sample_loop-Keeps :
      (left first offset : ℕ) (s : Now F S setup)
      → Keeps F S setup i s (sample_loop F S setup left first offset s)
  unfolding sample_loop
  sample_loop-Keeps zero first offset s = Keeps-refl F S setup i s
  sample_loop-Keeps (suc left) first offset s =
      let polled = poll_chunk F S setup offset s in
      trans (poll_chunk-Keeps offset s) (
        Keeps-if F S setup i (stops F S setup offset polled) (Keeps-refl F S setup i polled) (
          trans (process_streaming_sample-Keeps (first + offset) polled)
            (sample_loop-Keeps left first (offset + 1) _)))

  pub cleanup-Keeps :
      (from : R) (s : Now F S setup)
      → Keeps F S setup i s (cleanup_inactive_sources F S setup from s)
  unfolding cleanup_inactive_sources
  cleanup-Keeps from s = quiet s _ (λ h. h) refl

  pub process_streaming_physics-Keeps :
      (from to : R) (s : Now F S setup)
      → Keeps F S setup i s (process_streaming_physics F S setup from to s)
  unfolding process_streaming_physics
  process_streaming_physics-Keeps from to s = Keeps-if F S setup i _ (Keeps-refl F S setup i s) (
      Keeps-if F S setup i _ (trans (poll-Keeps s) (cleanup-Keeps from _)) (
        trans (poll-Keeps s) (
          trans (cleanup-Keeps from _) (
            trans (sample_loop-Keeps _ _ 0 _)
              (trans (heartbeats-Keeps to _) (cleanup-Keeps to _))))))
