-- ===== src/Examples/Streams.antt =====
-- The packetizer and the registry at concrete inputs.
use fers.Base.{
  ℕ, zero, suc, ◌+◌, ◌*◌, ◌%◌, ◌^◌, ◌≤◌, ◌<◌, ◌≡◌, refl, Bool, true, false, List, [], ◌∷◌, some, ok,
  arith, length, take, drop,
}
use fers.Base.Int.{pos, IsI16}
use fers.Base.Text.{text_eq}
use fers.Vita49.Serializer.{scale_component_to_int16, scaled_component, clamp_int16, scale_sample}
use fers.Vita49.Serializer.Layout.{AllI16}
use fers.Vita49.Types.{Timestamp, new_sequencer, peek, max_complex_samples_per_signal_packet}
use fers.Vita49.Timestamp.{
  carried, carry_down, carry_up, timestamp_from_epoch, signed_seconds, fraction_sum,
}
use fers.Vita49.Timestamp.Laws.{timestamp_from_epoch_ok, whole_seconds, timestamp_from_epoch_value}
use fers.Vita49.Serializer.Fullscale.{scaled_items, clipped_count}
use fers.Vita49.Packetizer.{
  Vita49Packetizer, PacketizerResult, new_packetizer, block_sample_rate, packet_time, packetize,
}
use fers.Vita49.Packetizer.Blocks.{new_packetizer_capacity, Ready, Covers}
use fers.Vita49.Packetizer.Coverage.{packetize-Covers, received, received-packetize}
use fers.Vita49.Registry.{
  Registry, contains_id, allocate, max_attempts, empty_registry, register_stream, find_key, key_of,
  key_eq,
}
use fers.Vita49.Registry.Allocation.{allocate_returns}
use fers.Vita49.Registry.Invariant.{
  Registered, empty_registry-Inv, register_stream-Registered, register_stream-find_key,
}
use fers.Examples.Fixed.{unit, numbers, fixed-TimestampLaws}
use fers.Examples.Data.{stream, block}

-- Datagrams of 40 bytes hold two samples.
abbrev packetizer : Vita49Packetizer ℕ
packetizer = record {
  epoch_unix_nanoseconds = 0;
  adc_fullscale = 2 * unit;
  max_udp_payload_bytes = 40;
  max_complex_samples_per_packet = 2;
}

made : new_packetizer numbers 0 (2 * unit) 40 ≡ ok packetizer
unfolding new_packetizer max_complex_samples_per_signal_packet
made = refl

new_packetizer_capacity_example :
    (0 < 2) × (32 + 4 * 2 ≤ 40) × (40 < 32 + 4 * (2 + 1)) × (packetizer.max_udp_payload_bytes ≡ 40)
new_packetizer_capacity_example = new_packetizer_capacity numbers 0 (2 * unit) 40 made

seconds_of_block :
    (offset : ℕ)
    → offset < 3
    → whole_seconds numbers 0 (packet_time numbers block offset) ≡ pos (10 + offset)
unfolding signed_seconds carried carry_down carry_up fraction_sum packet_time block_sample_rate
seconds_of_block zero h = refl
seconds_of_block (suc zero) h = refl
seconds_of_block (suc (suc zero)) h = refl
seconds_of_block (suc (suc (suc n))) h = absurd (omega arith)

component-IsI16 :
    (value fullscale : ℕ) (clipped : Bool)
    → IsI16 (scale_component_to_int16 numbers value fullscale clipped).0
unfolding scale_component_to_int16 scaled_component clamp_int16
component-IsI16 value fullscale clipped = ground arith

scaled-AllI16 : (fullscale : ℕ) (xs : List (ℕ × ℕ)) → AllI16 (scaled_items numbers fullscale xs)
unfolding scaled_items scale_sample
scaled-AllI16 fullscale [] = tt
scaled-AllI16 fullscale (x ∷ xs) = (
  component-IsI16 x.0 fullscale false,
  (component-IsI16 x.1 fullscale _, scaled-AllI16 fullscale xs),
)

stamp_of :
    (offset : ℕ)
    → offset < length block.samples
    → (stamp : Timestamp) × (timestamp_from_epoch numbers 0 (packet_time numbers block offset)
        ≡ ok stamp)
      × (stamp.integer_seconds < 2 ^ 32)
      × (stamp.fractional_picoseconds < 2 ^ 64)
stamp_of offset h =
    let (stamp, e) =
      timestamp_from_epoch_ok numbers fixed-TimestampLaws 0 (packet_time numbers block offset)
        (10 + offset) refl (seconds_of_block offset h) (omega arith) in
    let fits =
      timestamp_from_epoch_value numbers fixed-TimestampLaws 0 (packet_time numbers block offset)
        e in
    (stamp, e, fits.0, omega (arith, fits.1))

block-Ready : Ready numbers packetizer block 99
block-Ready = record {
  capacity_positive = omega arith;
  capacity_fits = omega arith;
  limit_fits = omega arith;
  fullscale_finite = refl;
  fullscale_positive = refl;
  stream_id_fits = omega arith;
  stamps = λ offset h. stamp_of offset h;
  scaled_fit = λ offset count. scaled-AllI16 (2 * unit) (take count (drop offset block.samples));
}

packetize-Covers_example :
    (result : PacketizerResult ℕ) × ((packetize numbers packetizer block 99 new_sequencer true).0
      ≡ ok result)
    × Covers numbers packetizer block 99 0 true (peek new_sequencer) result.packets
    × (result.samples_emitted ≡ 3)
    × (result.over_range_count ≡ clipped_count numbers (2 * unit) block.samples)
    × (peek (packetize numbers packetizer block 99 new_sequencer true).1
        ≡ (peek new_sequencer + length result.packets) % 16)
unfolding block_sample_rate
packetize-Covers_example =
    packetize-Covers numbers packetizer block 99 block-Ready new_sequencer true refl (ground arith)

emitted :
    (result : PacketizerResult ℕ) × ((packetize numbers packetizer block 99 new_sequencer true).0
      ≡ ok result)
unfolding block_sample_rate
emitted =
    let all =
      packetize-Covers numbers packetizer block 99 block-Ready new_sequencer true refl refl in
    (all.0, all.1)

received-packetize_example :
    received numbers packetizer block 99 block-Ready emitted.0.packets
    ≡ some (scaled_items numbers (2 * unit) block.samples)
unfolding block_sample_rate
received-packetize_example =
    received-packetize numbers packetizer block 99 block-Ready new_sequencer true refl refl
      emitted.1

allocate_returns_example :
    (free : ℕ) × (allocate max_attempts 5 ((5, tt {0}) ∷ []) ≡ ok free)
    × (0 < free)
    × (free ≤ 2 ^ 31)
    × (contains_id free ((5, tt {0}) ∷ []) ≡ false)
allocate_returns_example =
    allocate_returns 5 ((5, tt {0}) ∷ []) (omega arith) (omega arith) (omega arith)

register_stream-Registered_example :
    (id : ℕ) × (r' : Registry ℕ) × (register_stream stream empty_registry ≡ ok (id, r'))
    × Registered stream empty_registry id r'
register_stream-Registered_example =
    register_stream-Registered stream empty_registry empty_registry-Inv (omega arith)

abbrev registered : Registry ℕ
registered = record {
  by_key = (key_of stream, 12) ∷ [];
  by_stream_id = (12, key_of stream) ∷ [];
  descriptors = (12, stream) ∷ [];
}

again : register_stream stream registered ≡ ok (12, registered)
unfolding register_stream find_key key_eq text_eq
again = refl

register_stream-find_key_example : find_key (key_of stream) registered.by_key ≡ some 12
unfolding find_key key_eq text_eq
register_stream-find_key_example =
    register_stream-find_key stream registered registered 12 (key_of stream) 12 again refl
