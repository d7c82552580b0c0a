-- ===== src/Examples/Sinks.antt =====
-- The output sink's streams at concrete inputs.
use fers.Base.{
  ℕ, ◌+◌, ◌*◌, ◌%◌, ◌≤◌, ◌≡◌, refl, true, false, none, Result, ok, err, Error, arith, length, ◌⊎◌,
}
use fers.Base.Text.{Text, lit}
use fers.Vita49.Types.{peek}
use fers.Vita49.Timestamp.{timestamp_from_epoch}
use fers.Vita49.Metadata.{Json}
use fers.Vita49.Packetizer.{SerializedPacket, Vita49Packetizer}
use fers.Vita49.Sender.{DroppedDatagram}
use fers.Vita49.Sink.{
  StreamState, PacketAccounting, new_state, account_packet, drop_datagram, build_context_packet,
  context_time,
}
use fers.Vita49.Sink.Accounting.{drop_datagram-account_packet}
use fers.Vita49.Sink.Contexts.{build_context_packet_lem}
use fers.Examples.Fixed.{unit, numbers}
use fers.Examples.Data.{stream, noon}

abbrev fresh : StreamState ℕ
fresh = record (new_state 0 99 stream) { sample_loss_pending = true }

abbrev sent : PacketAccounting ℕ
sent = record {
  stream_id = 99;
  sample_count = 4;
  first_sample_time = unit;
  end_sample_time = 5 * unit;
  timestamp = noon;
  end_timestamp = none;
  over_range = true;
}

abbrev lost : DroppedDatagram
lost = record { stream_id = 99; sample_count = 4; data_packet = true; context_packet = false }

drop_datagram-account_packet_example :
    let after = drop_datagram lost (account_packet sent fresh) in
    (after.stats.packets_emitted ≡ 0)
    × (after.stats.samples_emitted ≡ 0)
    × (after.stats.packets_dropped ≡ 1)
    × (after.stats.samples_dropped ≡ 4)
    × (after.sample_loss_pending ≡ true)
drop_datagram-account_packet_example =
    drop_datagram-account_packet sent lost fresh refl refl (omega arith) (omega arith) (omega arith)
      (omega arith)

abbrev config : Vita49Packetizer ℕ
config = record {
  epoch_unix_nanoseconds = 0;
  adc_fullscale = 2 * unit;
  max_udp_payload_bytes = 1_400;
  max_complex_samples_per_packet = 342;
}

abbrev dump : Json ℕ → Result Text
dump json = ok (lit "{}")

build_context_packet_lem_example :
    let (out, after) =
      build_context_packet numbers dump 0 config (lit "trial") 99 unit true false fresh in
    ((packet : SerializedPacket ℕ) × (out ≡ ok packet)
      × (packet.sample_loss ≡ true)
      × (packet.stream_id ≡ 99)
      × (packet.first_sample_time ≡ context_time numbers 0 unit)
      × (timestamp_from_epoch numbers 0 (context_time numbers 0 unit) ≡ ok packet.timestamp)
      × (length packet.bytes ≤ 1_400)
      × (after.sample_loss_pending ≡ false)
      × (after.over_range_pending ≡ false)
      × (after.last_context_time ≡ context_time numbers 0 unit)
      × (peek after.packet_counts ≡ (peek fresh.packet_counts + 1) % 16))
    ⊎ ((e : Error) × (out ≡ err e)
        × (after.sample_loss_pending ≡ true)
        × (after.over_range_pending ≡ false)
        × (after.last_context_time ≡ 0))
build_context_packet_lem_example =
    build_context_packet_lem numbers dump 0 config (lit "trial") 99 unit true false fresh
