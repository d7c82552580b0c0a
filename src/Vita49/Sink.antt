-- ===== src/Vita49/Sink.antt =====
-- The streams of `Vita49OutputSink` in packages/libfers/src/serial/vita49/vita49_output_sink.h and
-- .cpp, each with its statistics (`ReceiverStreamStats` of core/receiver_output.h) and its pending
-- flags. The telemetry callback, and the calls that wait on the paced sender, are not modelled.
pub mod Accounting
pub mod Contexts
use fers.Base.{
  ℕ, ◌+◌, ◌-◌, ◌^◌, ◌%◌, min, Bool, true, false, not, ◌&&◌, ◌||◌, List, [], ◌∷◌, ◌++◌, Option, none,
  some, Result, ok, err, ltb, ◌==◌, if◌then◌else◌, out_of_range, length,
}
use fers.Base.Text.{Text, lit, is_empty}
use fers.Floats.{Floats}
use fers.Vita49.Types.{Timestamp, PacketCountSequencer, new_sequencer, next}
use fers.Vita49.Timestamp.{timestamp_from_epoch}
use fers.Vita49.Descriptor.{ReceiverStreamDescriptor}
use fers.Vita49.Metadata.{Json}
use fers.Vita49.ContextBuilder.{ContextBuildRequest, build}
use fers.Vita49.Packetizer.{SerializedPacket, Vita49Packetizer, make_context_packet}
use fers.Vita49.Registry.{Registry, register_stream, find_id, contains_id}
use fers.Vita49.Sender.{DroppedDatagram}

-- `late_data_packet_count` and its kin are copied from the paced sender's counters when the
-- statistics are read.
pub record ReceiverStreamStats (R : Type 0) : Type 0 where
  pub receiver_id : ℕ
  pub receiver_name : Text
  pub stream_id : ℕ
  pub mode : Text
  pub sample_rate : R
  pub reference_frequency : R
  pub packets_emitted : ℕ
  pub context_packets : ℕ
  pub samples_emitted : ℕ
  pub packets_dropped : ℕ
  pub samples_dropped : ℕ
  pub over_range_count : ℕ
  pub late_data_packet_count : ℕ
  pub late_context_packet_count : ℕ
  pub first_sample_time : Option R
  pub end_sample_time : Option R
  pub first_timestamp : Option Timestamp
  pub end_timestamp : Option Timestamp

pub record StreamState (R : Type 0) : Type 0 where
  pub descriptor : ReceiverStreamDescriptor R
  pub stats : ReceiverStreamStats R
  pub packet_counts : PacketCountSequencer
  pub opened : Bool
  pub closed : Bool
  pub sample_loss_pending : Bool
  pub over_range_pending : Bool
  pub last_context_time : R

-- `_streams`.
abbrev pub Streams : Type 0 → Type 0
Streams R = List (ℕ × StreamState R)

-- What `submitBlocks` keeps of a data packet until it is enqueued.
pub record PacketAccounting (R : Type 0) : Type 0 where
  pub stream_id : ℕ
  pub sample_count : ℕ
  pub first_sample_time : R
  pub end_sample_time : R
  pub timestamp : Timestamp
  pub end_timestamp : Option Timestamp
  pub over_range : Bool

pub record ReceiverOutputPacketTrace (R : Type 0) : Type 0 where
  pub sequence : ℕ
  pub event : Text
  pub stream_id : ℕ
  pub byte_count : ℕ
  pub sample_count : ℕ
  pub first_sample_time : R
  pub timestamp : Option Timestamp
  pub data_packet : Bool
  pub context_packet : Bool
  pub dropped : Bool
  pub over_range : Bool
  pub sample_loss : Bool

module _ {R : Type 0} where
  -- `stateFor`.
  unfoldable pub state_for : ℕ → Streams R → Result (StreamState R)
  state_for stream_id streams = elim (find_id stream_id streams) [
    | none ↦ err out_of_range
    | some state ↦ ok state
  ]

  unfoldable pub update_stream : ℕ → (StreamState R → StreamState R) → Streams R → Streams R
  update_stream id f [] = []
  update_stream id f ((i, s) ∷ streams) =
      if i == id then (i, f s) ∷ streams else (i, s) ∷ update_stream id f streams

  -- The state of a stream that is not registered yet; `never` is the literal -1.0e300.
  abbrev pub new_state : R → ℕ → ReceiverStreamDescriptor R → StreamState R
  new_state never stream_id stream = record {
    descriptor = stream;
    stats = record {
      receiver_id = stream.receiver_id;
      receiver_name = stream.receiver_name;
      stream_id = stream_id;
      mode = if is_empty stream.mode then lit "unknown" else stream.mode;
      sample_rate = stream.sample_rate;
      reference_frequency = stream.reference_frequency;
      packets_emitted = 0;
      context_packets = 0;
      samples_emitted = 0;
      packets_dropped = 0;
      samples_dropped = 0;
      over_range_count = 0;
      late_data_packet_count = 0;
      late_context_packet_count = 0;
      first_sample_time = none;
      end_sample_time = none;
      first_timestamp = none;
      end_timestamp = none;
    };
    packet_counts = new_sequencer;
    opened = false;
    closed = false;
    sample_loss_pending = false;
    over_range_pending = false;
    last_context_time = never;
  }

  -- `Vita49OutputSink::registerStream`.
  unfoldable pub sink_register_stream :
      R → ReceiverStreamDescriptor R → Registry R × Streams R → Result (ℕ × Registry R × Streams R)
  sink_register_stream never stream (registry, streams) = elim (register_stream stream registry) [
    | err e ↦ err e
    | ok (stream_id, registry') ↦ ok (
      stream_id,
      registry',
      if contains_id stream_id streams
          then streams
          else (stream_id, new_state never stream_id stream) ∷ streams,
    )
  ]

  -- One packet of the loop over `accounting` at the end of `submitBlocks`.
  unfoldable pub account_packet : PacketAccounting R → StreamState R → StreamState R
  account_packet packet state =
      let stats = record state.stats {
        samples_emitted = (state.stats.samples_emitted + packet.sample_count) % 2 ^ 64;
        packets_emitted = (state.stats.packets_emitted + 1) % 2 ^ 64;
        first_sample_time = elim state.stats.first_sample_time [
          | none ↦ some packet.first_sample_time
          | some t ↦ some t
        ];
        first_timestamp = elim state.stats.first_sample_time [
          | none ↦ some packet.timestamp
          | some t ↦ state.stats.first_timestamp
        ];
        end_sample_time = some packet.end_sample_time;
        end_timestamp = packet.end_timestamp;
      } in
      record state {
        stats = stats;
        over_range_pending = if packet.over_range then true else state.over_range_pending;
      }

  -- A datagram that was not sent, in the statistics of its stream.
  unfoldable pub drop_datagram : DroppedDatagram → StreamState R → StreamState R
  drop_datagram dropped state =
      let s = state.stats in
      let counted = record s {
        packets_dropped = (s.packets_dropped + 1) % 2 ^ 64;
        samples_dropped = (s.samples_dropped + dropped.sample_count) % 2 ^ 64;
      } in
      let stats =
        if dropped.data_packet || (not dropped.context_packet && ltb 0 dropped.sample_count)
        then record counted {
          packets_emitted = s.packets_emitted - min s.packets_emitted 1;
          samples_emitted = s.samples_emitted - min s.samples_emitted dropped.sample_count;
        }
        else if dropped.context_packet
        then record counted { context_packets = s.context_packets - min s.context_packets 1 }
        else counted in
      record state { stats = stats; sample_loss_pending = true }

  -- `applyDropped`.
  unfoldable pub apply_dropped : DroppedDatagram → Streams R → Streams R
  apply_dropped dropped streams =
      if dropped.stream_id == 0 || not (contains_id dropped.stream_id streams)
      then streams
      else update_stream dropped.stream_id (drop_datagram dropped) streams

  -- `makeTrace`.
  unfoldable pub make_trace : SerializedPacket R → Text → ReceiverOutputPacketTrace R
  make_trace packet event = record {
    sequence = 0;
    event = event;
    stream_id = packet.stream_id;
    byte_count = length packet.bytes;
    sample_count = packet.sample_count;
    first_sample_time = packet.first_sample_time;
    timestamp = some packet.timestamp;
    data_packet = packet.data_packet;
    context_packet = packet.context_packet;
    dropped = false;
    over_range = packet.over_range;
    sample_loss = packet.sample_loss;
  }

module _ (F : Floats) where
  open F use {R, double}

  -- `makeDropTrace`.
  unfoldable pub make_drop_trace : DroppedDatagram → ReceiverOutputPacketTrace R
  make_drop_trace dropped = record {
    sequence = 0;
    event = lit "drop";
    stream_id = dropped.stream_id;
    byte_count = 0;
    sample_count = dropped.sample_count;
    first_sample_time = double.of_ℕ 0;
    timestamp = none;
    data_packet = dropped.data_packet;
    context_packet = dropped.context_packet;
    dropped = true;
    over_range = false;
    sample_loss = true;
  }

  -- A time that no packet has yet counts as zero; `early` is the literal -1.0e200.
  abbrev pub context_time : R → R → R
  context_time early simulation_time =
      if double.le simulation_time early then double.of_ℕ 0 else simulation_time

  module _ (dump : Json R → Result Text) (early : R) (P : Vita49Packetizer R)
      (simulation_name : Text) where
    abbrev pub context_request : ℕ → Timestamp → Bool → Bool → StreamState R → ContextBuildRequest R
    context_request stream_id timestamp stream_open stream_close state = record {
      stream = state.descriptor;
      stream_id = stream_id;
      simulation_name = simulation_name;
      adc_fullscale = P.adc_fullscale;
      timestamp = timestamp;
      packet_count = (next state.packet_counts).0;
      valid_data = true;
      calibrated_time = true;
      reference_lock = true;
      over_range = state.over_range_pending;
      sample_loss = state.sample_loss_pending;
      stream_open = stream_open;
      stream_close = stream_close;
    }

    -- `buildContextPacket` for a stream that is known: the packet, and the state as the call leaves it,
    -- also when it throws.
    unfoldable pub build_context_packet :
        ℕ → R → Bool → Bool → StreamState R → Result (SerializedPacket R) × StreamState R
    build_context_packet stream_id simulation_time stream_open stream_close state =
        let time = context_time early simulation_time in
        elim (timestamp_from_epoch F P.epoch_unix_nanoseconds time) [
          | err e ↦ (err e, state)
          | ok timestamp ↦
              let counted = record state { packet_counts = (next state.packet_counts).1 } in
              let context =
                build R (context_request stream_id timestamp stream_open stream_close state) in
              elim (make_context_packet F dump P context) [
                | err e ↦ (err e, counted)
                | ok packet ↦ (
                  ok (record packet { first_sample_time = time }),
                  record counted {
                    last_context_time = time;
                    sample_loss_pending = false;
                    over_range_pending = false;
                  },
                )
              ]
        ]
