-- ===== src/Simulation/Streams/Lifecycle.antt =====
-- Over a whole run each stream is registered, opened, fed and closed in order, and is closed at its
-- end.
use fers.Base.{
  ℕ, ◌≡◌, refl, ◌⊎◌, inl, inr, Bool, true, false, List, [], ◌∷◌, Option, none, some, Bool-cases,
  if◌then◌else◌, arith, ◌==◌, ==_iff,
}
use fers.Floats.{Floats}
use fers.Simulation.Events.{PriorityQueue, occurs_after}
use fers.Simulation.Engine.{Engine, run, finish_run}
use fers.Simulation.Engine.Preserved.{Preserves, final, final-preserves}
use fers.Simulation.Streams.{Setup}
use fers.Simulation.Streams.Blocks.{input_sample_rate, set_downsampler}
use fers.Simulation.Streams.Sampling.{Now, is_streaming_receiver, streaming_output_sample_rate}
use fers.Simulation.Streams.Handlers.{
  set_active, enqueue_job, enqueue_window_job, handle_tx_streaming_start, known,
  handle_rx_streaming_start, close_if_open, flush_last, handle_rx_streaming_end, shutdown_receiver,
  shutdown, simulation,
}
use fers.Simulation.Streams.Session.{
  Stage, unregistered, closed, session, next_stage, Session, is_open, Keeps, keep, Keeps-trans,
  Keeps-if, set_stream-Keeps, ensure_stream_open-Keeps,
}
use fers.Simulation.Streams.Emission.{flush_last-Keeps, flush_blocks-Keeps}
use fers.Simulation.Streams.Untouched.{flush_last-Untouched, same}
use fers.Simulation.Streams.Sampled.{
  quiet, poll-Keeps, cleanup-Keeps, process_streaming_physics-Keeps,
}

module _ (F : Floats) (S : Type 0) (setup : Setup F S) (i : ℕ)
    (positive : F.double.le setup.rate (F.double.of_ℕ 0) ≡ false)
    (positive_input : F.double.le (input_sample_rate F S setup) (F.double.of_ℕ 0) ≡ false) where
  open F use {R, double}
  open setup use {receivers}

  handle_rx_streaming_start-Keeps :
      (rx : ℕ) (t : R) (s : Now F S setup)
      → Keeps F S setup i s (handle_rx_streaming_start F S setup rx t s)
  unfolding handle_rx_streaming_start set_active
  handle_rx_streaming_start-Keeps rx t s =
      let active = set_active F S setup rx true s in
      let reset = set_downsampler F S setup rx none active in
      let to_active = quiet F S setup i positive positive_input s active (λ h. h) refl in
      let to_reset = Keeps-trans F S setup i to_active (
        set_stream-Keeps F S setup i rx (record (active.streams rx) { downsampler = none }) active
          refl refl) in
      Keeps-if F S setup i _ to_active (
        Keeps-if F S setup i setup.eager_context_stream_open
          (Keeps-trans F S setup i to_reset (
            ensure_stream_open-Keeps F S setup i rx t (streaming_output_sample_rate F S setup rx)
              reset))
          to_reset)

  close_if_open-Session :
      (rx : ℕ) (s : Now F S setup)
      → Session F S setup i s
      → Session F S setup i (close_if_open F S setup rx s)
  unfolding close_if_open session next_stage
  close_if_open-Session rx s h = elim (Bool-cases (i == rx)) [
    | inl self ↦ ground (arith, ==_iff i rx)
    | inr other ↦ ground (arith, ==_iff i rx)
  ]

  close_if_open-closed :
      (rx : ℕ) (s : Now F S setup)
      → (i == rx) ≡ true
      → is_open F S setup i (close_if_open F S setup rx s) ≡ false
  unfolding close_if_open
  close_if_open-closed rx s self = ground (arith, ==_iff i rx)

  close_if_open-other :
      (rx : ℕ) (s : Now F S setup)
      → is_open F S setup i s ≡ false
      → is_open F S setup i (close_if_open F S setup rx s) ≡ false
  unfolding close_if_open
  close_if_open-other rx s h = ground (arith, ==_iff i rx)

  flush_last-Session :
      (rx : ℕ) (s : Now F S setup)
      → Session F S setup i s
      → Session F S setup i (flush_last F S setup rx s)
  flush_last-Session rx s =
      keep F S setup i (flush_last-Keeps F S setup i positive positive_input rx s)

  handle_rx_streaming_end-Session :
      (rx : ℕ) (t : R) (s : Now F S setup)
      → Session F S setup i s
      → Session F S setup i (handle_rx_streaming_end F S setup rx t s)
  unfolding handle_rx_streaming_end set_active
  handle_rx_streaming_end-Session rx t s h = by_known (known F S setup rx receivers)
    where
      by_known :
          (b : Bool)
          → Session F S setup i (
              if b
              then set_active F S setup rx false
                  (close_if_open F S setup rx (flush_last F S setup rx s))
              else set_active F S setup rx false s)
      by_known true = close_if_open-Session rx _ (flush_last-Session rx s h)
      by_known false = h

  Session-if :
      (b : Bool) (x y : Now F S setup)
      → Session F S setup i x
      → Session F S setup i y
      → Session F S setup i (if b then x else y)
  Session-if true x y p q = p
  Session-if false x y p q = q

  shutdown_receiver-Session :
      (rx : ℕ) (s : Now F S setup)
      → Session F S setup i s
      → Session F S setup i (shutdown_receiver F S setup rx s)
  unfolding shutdown_receiver enqueue_job
  shutdown_receiver-Session rx s h =
      Session-if (is_streaming_receiver F S setup rx) _ _
        (close_if_open-Session rx _ (flush_last-Session rx s h)) h

  shutdown-Session :
      (rxs : List ℕ) (s : Now F S setup)
      → Session F S setup i s
      → Session F S setup i (shutdown F S setup rxs s)
  unfolding shutdown
  shutdown-Session [] s h = h
  shutdown-Session (rx ∷ others) s h = shutdown-Session others _ (shutdown_receiver-Session rx s h)

  -- A stream that is closed stays so while the other receivers are shut down.
  shutdown_receiver-closed :
      (rx : ℕ) (s : Now F S setup)
      → is_streaming_receiver F S setup i ≡ true
      → ((i == rx) ≡ true) ⊎ (is_open F S setup i s ≡ false)
      → is_open F S setup i (shutdown_receiver F S setup rx s) ≡ false
  unfolding shutdown_receiver enqueue_job
  shutdown_receiver-closed rx s streaming h = elim (Bool-cases (i == rx)) [
    | inl self ↦
        ground (arith, ==_iff i rx, close_if_open-closed rx (flush_last F S setup rx s) self)
    | inr other ↦ ground (
      arith,
      same F S setup i rx other (flush_last-Untouched F S setup i rx other s),
      close_if_open-other rx (flush_last F S setup rx s),
    )
  ]

  shutdown-closed :
      (rxs : List ℕ) (s : Now F S setup)
      → is_streaming_receiver F S setup i ≡ true
      → (known F S setup i rxs ≡ true) ⊎ (is_open F S setup i s ≡ false)
      → is_open F S setup i (shutdown F S setup rxs s) ≡ false
  unfolding shutdown known
  shutdown-closed [] s streaming h = ground arith
  shutdown-closed (rx ∷ others) s streaming h =
      let next = shutdown_receiver F S setup rx s in
      ground (
        arith,
        ==_iff i rx,
        ==_iff rx i,
        shutdown-closed others next streaming,
        shutdown_receiver-closed rx s streaming,
      )

  module _ (events : PriorityQueue (occurs_after F)) where
    Session-Preserves : Preserves F (simulation F S setup events) (Session F S setup i)
    unfolding set_active enqueue_window_job enqueue_job handle_tx_streaming_start
    Session-Preserves = record {
      polls = λ s. keep F S setup i (poll-Keeps F S setup i positive positive_input s);
      physics = λ from to s.
          keep F S setup i
            (process_streaming_physics-Keeps F S setup i positive positive_input from to s);
      flushes =
          λ s. keep F S setup i (flush_blocks-Keeps F S setup i positive positive_input false s);
      responds = λ tx t s h. h;
      activates = λ rx value s h. h;
      enqueues = λ rx t s h. h;
      starts_source = λ source s h. h;
      ends_source = λ t s. keep F S setup i (cleanup-Keeps F S setup i positive positive_input t s);
      starts_receiver = λ rx t s. keep F S setup i (handle_rx_streaming_start-Keeps rx t s);
      ends_receiver = handle_rx_streaming_end-Session;
    }

    -- The stage of a receiver's stream after all the calls of a run, whose calls come in order.
    abbrev pub Ended : Option Stage → Type 0
    Ended stage = (stage ≡ some unregistered) ⊎ (stage ≡ some closed)

    Session-Ended :
        (s : Now F S setup)
        → Session F S setup i s
        → is_open F S setup i s ≡ false
        → Ended (session i s.calls)
    Session-Ended s h closed_now = ground arith

    -- In every run, each stream's calls at the sink come in order: it is registered once, before it is
    -- opened, is opened only while it is closed, gets blocks only while it is open, and is closed only
    -- while it is open. Where the receiver is a streaming one of the world, its stream is not open at
    -- the end. The sample rates are positive, and at the start the receiver's entries agree with the
    -- calls that were made.
    pub run-Ended :
        (n : ℕ) (m : Engine F (simulation F S setup events))
        → is_streaming_receiver F S setup i ≡ true
        → known F S setup i receivers ≡ true
        → Session F S setup i m.system
        → Ended (session i (run F (simulation F S setup events) n m).calls)
    unfolding run finish_run
    run-Ended n m streaming member h =
        let before =
          final F (simulation F S setup events) (Session F S setup i) Session-Preserves n m in
        let kept_session = shutdown-Session receivers before (
          final-preserves F (simulation F S setup events) (Session F S setup i) Session-Preserves n
            m h) in
        Session-Ended (shutdown F S setup receivers before) kept_session
          (shutdown-closed receivers before streaming (inl member))
