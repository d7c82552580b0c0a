-- ===== src/Vita49/Packetizer/Coverage.antt =====
-- The loop of `packetize` and what its packets hold together.
use mathlib.Core.List.{append_assoc, append-nil}
use fers.Base.{
  ℕ, zero, suc, ◌+◌, ◌-◌, ◌%◌, ◌≤◌, ◌<◌, ◌≡◌, refl, sym, ap, ◌∙◌, Bool, true, false, List, [], ◌∷◌,
  ◌++◌, Option, some, Result, ok, arith, ltb, length, take, drop, take-append-drop, drop-drop,
  Bool-cases, inl, inr,
}
use fers.Base.Int.{ℤ}
use fers.Base.Text.{is_empty, is_empty_nil}
use fers.Floats.{Floats}
use fers.Vita49.Types.{PacketCountSequencer, next, peek}
use fers.Vita49.Types.Counts.{next-peek, peek-mod}
use fers.Vita49.Serializer.Layout.{read_signal, ◌>>=◌}
use fers.Vita49.Serializer.Fullscale.{
  scaled_items, clipped_count, clipped_count-append, scaled_items-append, scaled_packet,
}
use fers.Vita49.Packetizer.{
  SerializedPacket, PacketizerResult, ReceiverSampleBlock, Vita49Packetizer, block_sample_rate,
  signal_packet, packet_loop, packetize,
}
use fers.Vita49.Packetizer.Blocks.{Ready, count_at, chunk_at, IsPacket, Covers, packet_round_lem}

module _ (F : Floats) where
  open F use {R, double}

  module _ (P : Vita49Packetizer R) (block : ReceiverSampleBlock R) (stream_id : ℕ)
      (ready : Ready F P block stream_id) where
    abbrev count_of : ℕ → ℕ
    count_of = count_at F P block stream_id

    chunk-rest :
        (offset : ℕ)
        → take (count_of offset) (drop offset block.samples)
            ++ drop (offset + count_of offset) block.samples
          ≡ drop offset block.samples
    chunk-rest offset =
        ap (◌++◌ (take (count_of offset) (drop offset block.samples)))
          (sym (drop-drop offset (count_of offset) block.samples))
        ∙ take-append-drop (count_of offset) (drop offset block.samples)

    clipped-rest :
        (offset : ℕ)
        → clipped_count F P.adc_fullscale (chunk_at F P block stream_id offset)
            + clipped_count F P.adc_fullscale (drop (offset + count_of offset) block.samples)
          ≡ clipped_count F P.adc_fullscale (drop offset block.samples)
    clipped-rest offset =
        sym (clipped_count-append F P.adc_fullscale (chunk_at F P block stream_id offset) _)
        ∙ ap (clipped_count F P.adc_fullscale) (chunk-rest offset)

    clipped_past :
        (xs : List (R × R)) (offset : ℕ)
        → length xs ≤ offset
        → clipped_count F P.adc_fullscale (drop offset xs) ≡ 0
    unfolding clipped_count
    clipped_past [] zero h = refl
    clipped_past [] (suc offset) h = refl
    clipped_past (x ∷ xs) zero h = absurd (omega arith)
    clipped_past (x ∷ xs) (suc offset) h = clipped_past xs offset (omega arith)

    -- A run of the loop from `offset` on, under a counter, onto a result.
    record Run (offset : ℕ) (loss : Bool) (counts : PacketCountSequencer)
        (result : PacketizerResult R) (out : Result (PacketizerResult R) × PacketCountSequencer)
        : Type 0 where
      packets : List (SerializedPacket R)
      covers : Covers F P block stream_id offset loss (peek counts) packets
      returns :
          out.0
          ≡ ok (record {
            packets = result.packets ++ packets;
            samples_emitted = result.samples_emitted + (length block.samples - offset);
            over_range_count =
                result.over_range_count
                + clipped_count F P.adc_fullscale (drop offset block.samples);
          })
      counted : peek out.1 ≡ (peek counts + length packets) % 16

    stop-Run :
        (offset : ℕ) (loss : Bool) (counts : PacketCountSequencer) (result : PacketizerResult R)
        → length block.samples ≤ offset
        → Run offset loss counts result (ok result, counts)
    stop-Run offset loss counts result h =
        let none_left = clipped_past block.samples offset h in
        record {
          packets = [];
          covers = h;
          returns = ground (arith, append-nil result.packets);
          counted = omega (arith, peek-mod counts);
        }

    abbrev with_packet : ℕ → PacketizerResult R → SerializedPacket R → PacketizerResult R
    with_packet offset result p = record {
      packets = result.packets ++ p ∷ [];
      samples_emitted = result.samples_emitted + count_of offset;
      over_range_count =
          result.over_range_count
          + clipped_count F P.adc_fullscale (chunk_at F P block stream_id offset);
    }

    extend-Run :
        (offset : ℕ) (loss : Bool) (counts : PacketCountSequencer) (result : PacketizerResult R)
        (out : Result (PacketizerResult R) × PacketCountSequencer) (p : SerializedPacket R)
        → offset < length block.samples
        → IsPacket F P block stream_id offset loss (peek counts) p
        → Run (offset + count_of offset) false (next counts).1 (with_packet offset result p) out
        → Run offset loss counts result out
    extend-Run offset loss counts result out p h shape rest =
        let clipped = clipped-rest offset in
        let numbered = (next-peek counts).1 in
        record {
          packets = p ∷ rest.packets;
          covers = (h, shape, rw (← numbered) rest.covers);
          returns =
              rest.returns ∙ ground (arith, append_assoc result.packets (p ∷ []) rest.packets);
          counted = omega (arith, rest.counted);
        }

    packet_loop-Run :
        (fuel offset : ℕ) (loss : Bool) (counts : PacketCountSequencer)
        (result : PacketizerResult R)
        → length block.samples ≤ offset + fuel
        → Run offset loss counts result
            (packet_loop F P block stream_id fuel offset loss counts result)
    unfolding packet_loop
    packet_loop-Run zero offset loss counts result h =
        stop-Run offset loss counts result (omega arith)
    packet_loop-Run (suc fuel) offset loss counts result h =
        elim (Bool-cases (ltb offset (length block.samples))) [
          | inl more ↦
              let in_range : offset < length block.samples = ground arith in
              let (p, shape, e) =
                packet_round_lem F P block stream_id ready offset loss counts result in_range in
              let positive = ready.capacity_positive in
              rw (more, e, packet_loop)
                (rw e (
                  extend-Run offset loss counts result _ p in_range shape (
                    packet_loop-Run fuel (offset + count_of offset) false (next counts).1
                      (with_packet offset result p) (omega arith))))
          | inr done ↦ rw (done, packet_loop) (stop-Run offset loss counts result (ground arith))
        ]

    -- The items that a receiver of the datagrams reads, in the order of the datagrams.
    unfoldable pub received : List (SerializedPacket R) → Option (List ℤ)
    received [] = some []
    received (p ∷ ps) = do
      (view, rest) ← read_signal p.bytes
      items ← received ps
      some (view.items ++ items)

    scaled_past :
        (xs : List (R × R)) (offset : ℕ)
        → length xs ≤ offset
        → scaled_items F P.adc_fullscale (drop offset xs) ≡ []
    unfolding scaled_items
    scaled_past [] zero h = refl
    scaled_past [] (suc offset) h = refl
    scaled_past (x ∷ xs) zero h = absurd (omega arith)
    scaled_past (x ∷ xs) (suc offset) h = scaled_past xs offset (omega arith)

    scaled-rest :
        (offset : ℕ)
        → scaled_items F P.adc_fullscale (chunk_at F P block stream_id offset)
            ++ scaled_items F P.adc_fullscale (drop (offset + count_of offset) block.samples)
          ≡ scaled_items F P.adc_fullscale (drop offset block.samples)
    scaled-rest offset =
        sym (scaled_items-append F P.adc_fullscale (chunk_at F P block stream_id offset) _)
        ∙ ap (scaled_items F P.adc_fullscale) (chunk-rest offset)

    received-Covers :
        (offset : ℕ) (loss : Bool) (n : ℕ) (ps : List (SerializedPacket R))
        → Covers F P block stream_id offset loss n ps
        → received ps ≡ some (scaled_items F P.adc_fullscale (drop offset block.samples))
    unfolding received scaled_packet signal_packet
    received-Covers offset loss n [] h = ap some (sym (scaled_past block.samples offset h))
    received-Covers offset loss n (p ∷ ps) (h, shape, rest) =
        rw
          (
            shape.reads,
            received-Covers (offset + count_of offset) false ((n + 1) % 16) ps rest,
            scaled-rest offset,
          )
          refl

    -- When the configuration fits, the sample rate is finite and positive, the scaled samples are
    -- 16-bit and every packet's timestamp can be made, a block is packetized without an exception.
    -- The packets cover its samples in order, without gap or overlap; each is within the datagram
    -- limit and reads back to its own fields; they are numbered consecutively modulo 16 from the
    -- stream's counter, which moves on by their number; only the first may carry the pending loss
    -- flag. All samples and all clipped samples are counted.
    pub packetize-Covers :
        (counts : PacketCountSequencer) (pending : Bool)
        → double.is_finite (block_sample_rate F block) ≡ true
        → double.le (block_sample_rate F block) (double.of_ℕ 0) ≡ false
        → (result : PacketizerResult R) × ((packetize F P block stream_id counts pending).0
            ≡ ok result)
          × Covers F P block stream_id 0 pending (peek counts) result.packets
          × (result.samples_emitted ≡ length block.samples)
          × (result.over_range_count ≡ clipped_count F P.adc_fullscale block.samples)
          × (peek (packetize F P block stream_id counts pending).1
              ≡ (peek counts + length result.packets) % 16)
    unfolding packetize
    packetize-Covers counts pending finite positive = elim (Bool-cases (is_empty block.samples)) [
      | inl none_at_all ↦
          let e = is_empty_nil block.samples none_at_all in
          rw none_at_all (
            record { packets = []; samples_emitted = 0; over_range_count = 0 },
            refl,
            omega (arith, ap length e),
            omega (arith, ap length e),
            sym (clipped_past block.samples 0 (omega (arith, ap length e))),
            omega (arith, peek-mod counts),
          )
      | inr some_left ↦
          let run =
            packet_loop-Run (length block.samples) 0 pending counts
              (record { packets = []; samples_emitted = 0; over_range_count = 0 }) (omega arith) in
          rw (some_left, finite, positive)
            (
              record {
                packets = run.packets;
                samples_emitted = 0 + (length block.samples - 0);
                over_range_count = 0 + clipped_count F P.adc_fullscale block.samples;
              },
              run.returns,
              run.covers,
              omega arith,
              omega arith,
              run.counted,
            )
    ]

    -- When the configuration fits, the sample rate is finite and positive, the scaled samples are
    -- 16-bit and every timestamp can be made, a receiver that reads the datagrams of a packetized
    -- block in order gets exactly the scaled samples of the block.
    pub received-packetize :
        (counts : PacketCountSequencer) (pending : Bool) {result : PacketizerResult R}
        → double.is_finite (block_sample_rate F block) ≡ true
        → double.le (block_sample_rate F block) (double.of_ℕ 0) ≡ false
        → (packetize F P block stream_id counts pending).0 ≡ ok result
        → received result.packets ≡ some (scaled_items F P.adc_fullscale block.samples)
    received-packetize counts pending {result} finite positive e =
        let emitted = packetize-Covers counts pending finite positive in
        let same : emitted.0 ≡ result = ground (arith, emitted.1) in
        ap (λ (r : PacketizerResult R). received r.packets) (sym same)
        ∙ received-Covers 0 pending (peek counts) emitted.0.packets emitted.2
