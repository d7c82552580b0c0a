-- ===== src/Vita49/Sink/Accounting.antt =====
-- The statistics of a stream over the packets that are emitted and dropped.
use fers.Base.{◌+◌, ◌^◌, ◌%◌, ◌<◌, ◌≡◌, true, List, [], ◌∷◌, arith}
use fers.Vita49.Sender.{DroppedDatagram}
use fers.Vita49.Sender.Order.{total}
use fers.Vita49.Sink.{StreamState, PacketAccounting, account_packet, drop_datagram}

module _ {R : Type 0} where
  unfoldable pub account_all : List (PacketAccounting R) → StreamState R → StreamState R
  account_all [] state = state
  account_all (p ∷ packets) state = account_all packets (account_packet p state)

  -- A data packet that was counted as emitted and is then dropped: the counts of emitted packets and
  -- samples are what they were, those of dropped ones have grown by it, and a loss is pending. The
  -- counts stay below 2^64.
  pub drop_datagram-account_packet :
      (packet : PacketAccounting R) (dropped : DroppedDatagram) (state : StreamState R)
      → dropped.data_packet ≡ true
      → dropped.sample_count ≡ packet.sample_count
      → state.stats.packets_emitted + 1 < 2 ^ 64
      → state.stats.samples_emitted + packet.sample_count < 2 ^ 64
      → state.stats.packets_dropped + 1 < 2 ^ 64
      → state.stats.samples_dropped + packet.sample_count < 2 ^ 64
      → let after = drop_datagram dropped (account_packet packet state) in
        (after.stats.packets_emitted ≡ state.stats.packets_emitted)
        × (after.stats.samples_emitted ≡ state.stats.samples_emitted)
        × (after.stats.packets_dropped ≡ state.stats.packets_dropped + 1)
        × (after.stats.samples_dropped ≡ state.stats.samples_dropped + packet.sample_count)
        × (after.sample_loss_pending ≡ true)
  unfolding drop_datagram account_packet
  drop_datagram-account_packet packet dropped state is_data same h1 h2 h3 h4 = ground arith

  -- Over the packets of a call, the stream's sample count grows by their samples and its packet count
  -- by their number, modulo 2^64.
  pub account_all_totals :
      (packets : List (PacketAccounting R)) (state : StreamState R)
      → let after = account_all packets state in
        (after.stats.samples_emitted % 2 ^ 64
          ≡ (state.stats.samples_emitted + total (λ p. p.sample_count) packets) % 2 ^ 64)
        × (after.stats.packets_emitted % 2 ^ 64
            ≡ (state.stats.packets_emitted + total (λ p. 1) packets) % 2 ^ 64)
  unfolding account_all account_packet total
  account_all_totals [] state = (omega arith, omega arith)
  account_all_totals (p ∷ packets) state =
      let rest = account_all_totals packets (account_packet p state) in (omega arith, omega arith)
