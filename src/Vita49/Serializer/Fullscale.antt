-- ===== src/Vita49/Serializer/Fullscale.antt =====
-- `serializeSignalDataFixedFullscale` scales and writes in one pass. It does what scaling all
-- samples first and then `serializeSignalData` would do.
use native.Mathlib.Nat.{zero-add}
use fers.Base.{
  ℕ, suc, ◌+◌, ◌*◌, ◌≡◌, refl, not, ◌||◌, List, [], ◌∷◌, ◌++◌, Result, ok, err, arith, length, ltb,
  if◌then◌else◌, invalid_argument, ◌>>=◌,
}
use fers.Base.Int.{ℤ}
use fers.Floats.{Floats}
use fers.Vita49.Types.{SignalDataPacket, make_trailer}
use fers.Vita49.Writer.{ByteWriter, write_i16}
use fers.Vita49.Serializer.{
  write_items, serialize_signal_data, SignalDataSerializationResult, FixedFullscaleSignalDataPacket,
  scale_sample, write_samples, serialize_signal_data_fixed_fullscale,
}

module _ (F : Floats) where
  open F use {R, double}

  -- All samples scaled, real and imaginary parts in turn.
  unfoldable pub scaled_items : R → List (R × R) → List ℤ
  scaled_items fullscale [] = []
  scaled_items fullscale (s ∷ ss) =
      (scale_sample F fullscale s).0 ∷ (scale_sample F fullscale s).1 ∷ scaled_items fullscale ss

  -- The samples with a clipped component.
  unfoldable pub clipped_count : R → List (R × R) → ℕ
  clipped_count fullscale [] = 0
  clipped_count fullscale (s ∷ ss) =
      (if (scale_sample F fullscale s).2 then 1 else 0) + clipped_count fullscale ss

  write_samples_lem :
      (fullscale : R) (samples : List (R × R)) (w : ByteWriter) (c : ℕ)
      → write_samples F fullscale samples w c
        ≡ (write_items (scaled_items fullscale samples) w, c + clipped_count fullscale samples)
  unfolding write_samples write_items scaled_items clipped_count
  write_samples_lem fullscale [] w c = ground arith
  write_samples_lem fullscale (s ∷ ss) w c = ground (
    arith,
    write_samples_lem fullscale ss
        (write_i16 (scale_sample F fullscale s).1 (write_i16 (scale_sample F fullscale s).0 w))
        (if (scale_sample F fullscale s).2 then suc c else c),
  )

  pub length-scaled_items :
      (fullscale : R) (samples : List (R × R))
      → length (scaled_items fullscale samples) ≡ length samples * 2
  unfolding scaled_items
  length-scaled_items fullscale [] = refl
  length-scaled_items fullscale (s ∷ ss) = omega (arith, length-scaled_items fullscale ss)

  pub scaled_items-append :
      (fullscale : R) (xs ys : List (R × R))
      → scaled_items fullscale (xs ++ ys) ≡ scaled_items fullscale xs ++ scaled_items fullscale ys
  unfolding scaled_items
  scaled_items-append fullscale [] ys = refl
  scaled_items-append fullscale (x ∷ xs) ys = rw (scaled_items-append fullscale xs ys)

  pub clipped_count-append :
      (fullscale : R) (xs ys : List (R × R))
      → clipped_count fullscale (xs ++ ys) ≡ clipped_count fullscale xs + clipped_count fullscale ys
  unfolding clipped_count
  clipped_count-append fullscale [] ys = omega arith
  clipped_count-append fullscale (x ∷ xs) ys = omega (arith, clipped_count-append fullscale xs ys)

  -- The packet of scaled items, whose trailer tells whether any sample was clipped.
  unfoldable pub scaled_packet : FixedFullscaleSignalDataPacket F → SignalDataPacket
  scaled_packet p = record {
    stream_id = p.stream_id;
    class_id = p.class_id;
    timestamp = p.timestamp;
    packet_count = p.packet_count;
    iq_interleaved = scaled_items p.fullscale p.samples;
    trailer =
        make_trailer p.valid_data p.calibrated_time p.reference_lock
          (ltb 0 (clipped_count p.fullscale p.samples)) p.sample_loss;
  }

  abbrev pub with_clipped : ℕ → List ℕ → Result SignalDataSerializationResult
  with_clipped n bytes = ok (record { bytes = bytes; clipped_sample_count = n })

  -- With a full-scale that is finite and positive, the one-pass serializer returns the bytes of the
  -- scaled packet and the number of clipped samples, and throws exactly what `serializeSignalData`
  -- throws on the scaled packet. With any other full-scale it refuses the argument.
  pub serialize_signal_data_fixed_fullscale_lem :
      (p : FixedFullscaleSignalDataPacket F)
      → serialize_signal_data_fixed_fullscale F p ≡ (
          if not (double.is_finite p.fullscale) || double.le p.fullscale (double.of_ℕ 0)
          then err invalid_argument
          else (serialize_signal_data (scaled_packet p)
              >>= with_clipped (clipped_count p.fullscale p.samples)))
  unfolding serialize_signal_data_fixed_fullscale serialize_signal_data scaled_packet
  serialize_signal_data_fixed_fullscale_lem p =
      simp (write_samples_lem, length-scaled_items, zero-add) (ground arith)
