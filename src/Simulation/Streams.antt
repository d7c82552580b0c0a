-- ===== src/Simulation/Streams.antt =====
-- What `SimulationEngine` of packages/libfers/src/core/sim_threading.cpp does between and in its
-- events for the streaming receivers: it samples them, gathers the samples in blocks, and opens,
-- feeds and closes their streams at the output sink. The setup has the physics and the filters as
-- parameters. There is a sink, and no receiver has an intermediate-frequency resampler.
pub mod Blocks
pub mod Sampling
pub mod Handlers
pub mod Session
pub mod Emission
pub mod Untouched
pub mod Sampled
pub mod Lifecycle
use fers.Base.{ℕ, Bool, List, Option}
use fers.Floats.{Floats}
use fers.Simulation.Sources.{Transmitter, ActiveStreamingSource}
use fers.Simulation.Radar.{Receiver}

-- `DownsamplingSink` of packages/libfers/src/signal: what each call makes of the filter.
pub record DownsamplingSink (S : Type 0) : Type 1 where
  pub Filter : Type 0
  pub new_filter : Filter
  pub ratio : ℕ
  pub output_sample_count : Filter → ℕ
  pub consume : List S → Filter → Filter
  pub finish : Filter → Filter
  pub take_output : Filter → List S × Filter

-- The parameters of a run. A radar is its address; `received` is `calculateStreamingSample` of a
-- receiver at a sample's number, `still_live` the flag it sets for a source, `with_interference` and
-- `with_noise` what is added to a block, which starts at a time or at a sample's number.
pub record Setup (F : Floats) (S : Type 0) : Type 1 where
  pub transmitters : List ℕ
  pub receivers : List ℕ
  pub transmitter_at : ℕ → Transmitter F
  pub receiver_at : ℕ → Receiver F
  pub dechirp_enabled : ℕ → Bool
  pub start_time : F.R
  pub end_time : F.R
  pub internal_stop_time : F.R
  pub rate : F.R
  pub oversample_ratio : ℕ
  pub c : F.R
  pub infinity : F.R
  pub world_bounding_diameter : F.R
  pub max_propagation_legs : ℕ
  pub eager_context_stream_open : Bool
  pub received : ℕ → ℕ → List (ActiveStreamingSource F.R) → S
  pub still_live : ℕ → ℕ → ActiveStreamingSource F.R → Bool
  pub with_interference : ℕ → F.R → List S → List S
  pub with_noise : ℕ → ℕ → List S → List S
  pub filters : DownsamplingSink S

-- The entries of the engine's vectors for one receiver. `registered` is a stream number that is not
-- 0, and `described` metadata that is not null.
pub record Stream (R S Filter : Type 0) : Type 0 where
  pub buffer : List S
  pub block_start_time : R
  pub block_start_index : ℕ
  pub downsampler : Option Filter
  pub base_index : ℕ
  pub segment_start_time : R
  pub sample_cursor : ℕ
  pub registered : Bool
  pub described : Bool
  pub stream_open : Bool

-- `ReceiverSampleBlock`, with its receiver's address.
pub record SampleBlock (R S : Type 0) : Type 0 where
  pub receiver : ℕ
  pub first_sample_time : R
  pub sample_rate : R
  pub samples : List S
  pub sample_start : ℕ

-- A call of the output sink. A stream is named by its receiver.
pub data SinkCall (R S : Type 0) : Type 0 where
  register_stream : ℕ → R → SinkCall R S
  open_stream : ℕ → R → SinkCall R S
  submit_blocks : List (SampleBlock R S) → SinkCall R S
  emit_context_heartbeat : R → SinkCall R S
  close_stream : ℕ → SinkCall R S

-- A job for a receiver's finalizer thread; a negative duration ends the thread.
pub record RenderingJob (R : Type 0) : Type 0 where
  pub receiver : ℕ
  pub ideal_start_time : R
  pub duration : R
  pub active_streaming_sources : List (ActiveStreamingSource R)

-- `calls` and `jobs` have the latest first. `answers` are those that the cancellation callback will
-- give; after them it gives false.
pub record Streaming (R S Filter : Type 0) : Type 0 where
  pub streams : ℕ → Stream R S Filter
  pub active : ℕ → Bool
  pub sources : List (ActiveStreamingSource R)
  pub next_context_heartbeat_time : R
  pub cancelled : Bool
  pub answers : List Bool
  pub calls : List (SinkCall R S)
  pub jobs : List (RenderingJob R)
