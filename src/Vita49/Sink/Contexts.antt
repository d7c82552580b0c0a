-- ===== src/Vita49/Sink/Contexts.antt =====
-- Context packets report a stream's pending flags once.
use fers.Base.{
  ℕ, ◌+◌, ◌%◌, ◌≤◌, ◌≡◌, refl, sym, ap, Bool, true, false, Result, ok, err, arith, ◌==◌, length,
  ◌⊎◌, inl, inr, Error, Result-cases,
}
use fers.Base.Text.{Text}
use fers.Floats.{Floats}
use fers.Vita49.Types.{peek}
use fers.Vita49.Types.Counts.{next-peek}
use fers.Vita49.Types.Header.{bit_of}
use fers.Vita49.Timestamp.{timestamp_from_epoch}
use fers.Vita49.Metadata.{Json}
use fers.Vita49.ContextBuilder.{ContextBuildRequest, build}
use fers.Vita49.ContextBuilder.Flags.{build-ContextFlags}
use fers.Vita49.Packetizer.{SerializedPacket, Vita49Packetizer, make_context_packet}
use fers.Vita49.Sink.{StreamState, context_time, context_request, build_context_packet}

bit_of_eq : (b : Bool) (n : ℕ) → n ≡ bit_of b → (n == 1) ≡ b
bit_of_eq true n e = ground arith
bit_of_eq false n e = ground arith

module _ (F : Floats) where
  open F use {R, double}

  make_context_packet_flags :
      (dump : Json R → Result Text) (P : Vita49Packetizer R) (request : ContextBuildRequest R)
      (packet : SerializedPacket R)
      → make_context_packet F dump P (build R request) ≡ ok packet
      → (packet.sample_loss ≡ request.sample_loss)
        × (packet.stream_id ≡ request.stream_id)
        × (packet.timestamp ≡ request.timestamp)
        × (packet.context_packet ≡ true)
        × (packet.data_packet ≡ false)
        × (length packet.bytes ≤ P.max_udp_payload_bytes)
  unfolding make_context_packet build
  make_context_packet_flags dump P request packet e =
      let flag = bit_of_eq request.sample_loss _ (build-ContextFlags request).sample_loss_bit in
      ground (arith, flag)

  -- A context packet that is built carries the stream's pending loss flag, the stream's number, the
  -- timestamp of its time, and fits a datagram. The call clears both pending flags, moves the packet
  -- counter on by one, and records the time. A call that throws keeps the flags and the time.
  pub build_context_packet_lem :
      (dump : Json R → Result Text) (early : R) (P : Vita49Packetizer R) (name : Text)
      (stream_id : ℕ) (t : R) (opens closes : Bool) (state : StreamState R)
      → let (out, after) =
          build_context_packet F dump early P name stream_id t opens closes state in
        ((packet : SerializedPacket R) × (out ≡ ok packet)
          × (packet.sample_loss ≡ state.sample_loss_pending)
          × (packet.stream_id ≡ stream_id)
          × (packet.first_sample_time ≡ context_time F early t)
          × (timestamp_from_epoch F P.epoch_unix_nanoseconds (context_time F early t)
              ≡ ok packet.timestamp)
          × (length packet.bytes ≤ P.max_udp_payload_bytes)
          × (after.sample_loss_pending ≡ false)
          × (after.over_range_pending ≡ false)
          × (after.last_context_time ≡ context_time F early t)
          × (peek after.packet_counts ≡ (peek state.packet_counts + 1) % 16))
        ⊎ ((e : Error) × (out ≡ err e)
            × (after.sample_loss_pending ≡ state.sample_loss_pending)
            × (after.over_range_pending ≡ state.over_range_pending)
            × (after.last_context_time ≡ state.last_context_time))
  unfolding build_context_packet
  build_context_packet_lem dump early P name stream_id t opens closes state =
      elim (Result-cases
        (timestamp_from_epoch F P.epoch_unix_nanoseconds (context_time F early t))) [
          | inr (e, h) ↦ rw (h, build_context_packet) (inr (e, refl, refl, refl, refl))
          | inl (stamp, h) ↦
              let request =
                context_request F dump early P name stream_id stamp opens closes state in
              elim (Result-cases (make_context_packet F dump P (build R request))) [
                | inr (e, g) ↦
                    rw (h, build_context_packet, g, build_context_packet)
                      (inr (e, refl, refl, refl, refl))
                | inl (packet, g) ↦
                    let flags = make_context_packet_flags dump P request packet g in
                    rw (h, build_context_packet, g, build_context_packet)
                      (inl (
                        record packet { first_sample_time = context_time F early t },
                        refl,
                        flags.0,
                        flags.1,
                        refl,
                        ap ok (sym flags.2),
                        flags.5,
                        refl,
                        refl,
                        refl,
                        (next-peek state.packet_counts).1,
                      ))
              ]
        ]
