-- ===== src/Vita49/ContextBuilder/Flags.antt =====
-- Reading the flags of a context packet, and that a built packet can be serialized.
use fers.Base.{ℕ, ◌+◌, ◌*◌, ◌%◌, ◌^◌, ◌≤◌, ◌<◌, ◌≡◌, refl, Bool, true, false, ◌&&◌, arith}
use fers.Base.Bits.{bit, bit_or_comm, bit_or-field}
use fers.Base.Text.{lit}
use fers.Floats.{Floats}
use fers.Vita49.Types.{or_if, make_context_state_indicators, make_complex_int16_payload_format}
use fers.Vita49.Types.Header.{bit_of, bit_of-le}
use fers.Vita49.Types.Indicators.{TrailerFields, make_trailer-TrailerFields}
use fers.Vita49.Serializer.Context.{ContextFits}
use fers.Vita49.ContextBuilder.{mode_allows_metadata, ContextBuildRequest, build_flags, build}

-- A flag above all bits of a word that are set so far.
or_if_above :
    (k : ℕ) (b : Bool) (word sum : ℕ)
    → word ≡ sum
    → sum < 2 ^ k
    → 2 ^ k % 2 ^ k ≡ 0
    → or_if b (2 ^ k) word ≡ sum + bit_of b * 2 ^ k
unfolding or_if
or_if_above k true word sum e h clear =
    omega (arith, bit_or_comm word (2 ^ k), bit_or-field k (2 ^ k) word clear (omega arith))
or_if_above k false word sum e h clear = omega arith

flags-sum :
    (b0 b1 b2 b3 b4 b5 b6 b7 b8 : Bool)
    → or_if b8 (2 ^ 8) (
        or_if b7 (2 ^ 7) (
          or_if b6 (2 ^ 6) (
            or_if b5 (2 ^ 5) (
              or_if b4
                (2 ^ 4)
                (or_if b3 (2 ^ 3) (or_if b2 (2 ^ 2) (or_if b1 (2 ^ 1) (or_if b0 (2 ^ 0) 0))))))))
      ≡ bit_of b0 * 2 ^ 0
        + bit_of b1 * 2 ^ 1
        + bit_of b2 * 2 ^ 2
        + bit_of b3 * 2 ^ 3
        + bit_of b4 * 2 ^ 4
        + bit_of b5 * 2 ^ 5
        + bit_of b6 * 2 ^ 6
        + bit_of b7 * 2 ^ 7
        + bit_of b8 * 2 ^ 8
flags-sum b0 b1 b2 b3 b4 b5 b6 b7 b8 =
    let e0 = or_if_above 0 b0 _ 0 refl (omega arith) (omega arith) in
    let e1 = or_if_above 1 b1 _ _ e0 (omega (arith, bit_of-le b0)) (omega arith) in
    let e2 = or_if_above 2 b2 _ _ e1 (omega (arith, bit_of-le b0, bit_of-le b1)) (omega arith) in
    let e3 =
      or_if_above 3 b3 _ _ e2 (omega (arith, bit_of-le b0, bit_of-le b1, bit_of-le b2))
        (omega arith) in
    let e4 =
      or_if_above 4 b4 _ _ e3
        (omega (arith, bit_of-le b0, bit_of-le b1, bit_of-le b2, bit_of-le b3)) (omega arith) in
    let e5 =
      or_if_above 5 b5 _ _ e4
        (omega (arith, bit_of-le b0, bit_of-le b1, bit_of-le b2, bit_of-le b3, bit_of-le b4))
        (omega arith) in
    let e6 =
      or_if_above 6 b6 _ _ e5
        (omega (
          arith,
          bit_of-le b0,
          bit_of-le b1,
          bit_of-le b2,
          bit_of-le b3,
          bit_of-le b4,
          bit_of-le b5,
        ))
        (omega arith) in
    let e7 =
      or_if_above 7 b7 _ _ e6
        (omega (
          arith,
          bit_of-le b0,
          bit_of-le b1,
          bit_of-le b2,
          bit_of-le b3,
          bit_of-le b4,
          bit_of-le b5,
          bit_of-le b6,
        ))
        (omega arith) in
    let e8 =
      or_if_above 8 b8 _ _ e7
        (omega (
          arith,
          bit_of-le b0,
          bit_of-le b1,
          bit_of-le b2,
          bit_of-le b3,
          bit_of-le b4,
          bit_of-le b5,
          bit_of-le b6,
          bit_of-le b7,
        ))
        (omega arith) in
    omega arith

-- What the bits of `ContextFlags` say.
pub record ContextFlags {R : Type 0} (flags : ℕ) (request : ContextBuildRequest R) : Type 0 where
  pub dechirped_bit : bit flags 0 ≡ bit_of request.stream.dechirped
  pub if_resampled_bit : bit flags 1 ≡ bit_of request.stream.if_resampled
  pub sample_loss_bit : bit flags 2 ≡ bit_of request.sample_loss
  pub stream_open_bit : bit flags 3 ≡ bit_of request.stream_open
  pub stream_close_bit : bit flags 4 ≡ bit_of request.stream_close
  pub fmcw_bit :
      bit flags 5
      ≡ bit_of
          (request.stream.fmcw.present && mode_allows_metadata request.stream.mode (lit "fmcw"))
  pub cw_bit :
      bit flags 6
      ≡ bit_of (request.stream.cw.present && mode_allows_metadata request.stream.mode (lit "cw"))
  pub pulsed_bit :
      bit flags 7
      ≡ bit_of
          (request.stream.pulsed.present && mode_allows_metadata request.stream.mode (lit "pulsed"))
  pub sfcw_bit :
      bit flags 8
      ≡ bit_of
          (request.stream.sfcw.present && mode_allows_metadata request.stream.mode (lit "sfcw"))
  pub fits : flags < 2 ^ 9

flags_of_sum :
    (flags n0 n1 n2 n3 n4 n5 n6 n7 n8 : ℕ)
    → n0 ≤ 1
    → n1 ≤ 1
    → n2 ≤ 1
    → n3 ≤ 1
    → n4 ≤ 1
    → n5 ≤ 1
    → n6 ≤ 1
    → n7 ≤ 1
    → n8 ≤ 1
    → flags
      ≡ n0 * 2 ^ 0
        + n1 * 2 ^ 1
        + n2 * 2 ^ 2
        + n3 * 2 ^ 3
        + n4 * 2 ^ 4
        + n5 * 2 ^ 5
        + n6 * 2 ^ 6
        + n7 * 2 ^ 7
        + n8 * 2 ^ 8
    → (bit flags 0 ≡ n0)
      × (bit flags 1 ≡ n1)
      × (bit flags 2 ≡ n2)
      × (bit flags 3 ≡ n3)
      × (bit flags 4 ≡ n4)
      × (bit flags 5 ≡ n5)
      × (bit flags 6 ≡ n6)
      × (bit flags 7 ≡ n7)
      × (bit flags 8 ≡ n8)
      × (flags < 2 ^ 9)
flags_of_sum flags n0 n1 n2 n3 n4 n5 n6 n7 n8 h0 h1 h2 h3 h4 h5 h6 h7 h8 e = omega arith

module _ {R : Type 0} (request : ContextBuildRequest R) where
  -- A built packet's flags say, each by a bit of its own, whether the stream is dechirped, resampled,
  -- lossy, opening or closing, and for each waveform kind whether its metadata is present and the
  -- receiver's mode allows it. No other bit is set.
  pub build-ContextFlags : ContextFlags (build R request).context_flags request
  unfolding build
  build-ContextFlags =
      let s = request.stream in
      let fmcw = s.fmcw.present && mode_allows_metadata s.mode (lit "fmcw") in
      let cw = s.cw.present && mode_allows_metadata s.mode (lit "cw") in
      let pulsed = s.pulsed.present && mode_allows_metadata s.mode (lit "pulsed") in
      let sfcw = s.sfcw.present && mode_allows_metadata s.mode (lit "sfcw") in
      let bits =
        flags_of_sum (build_flags R request) _ _ _ _ _ _ _ _ _ (bit_of-le s.dechirped)
          (bit_of-le s.if_resampled) (bit_of-le request.sample_loss) (bit_of-le request.stream_open)
          (bit_of-le request.stream_close) (bit_of-le fmcw) (bit_of-le cw) (bit_of-le pulsed)
          (bit_of-le sfcw)
          (flags-sum s.dechirped s.if_resampled request.sample_loss request.stream_open
            request.stream_close fmcw cw pulsed sfcw) in
      record {
        dechirped_bit = bits.0;
        if_resampled_bit = bits.1;
        sample_loss_bit = bits.2;
        stream_open_bit = bits.3;
        stream_close_bit = bits.4;
        fmcw_bit = bits.5;
        cw_bit = bits.6;
        pulsed_bit = bits.7;
        sfcw_bit = bits.8;
        fits = bits.9;
      }

  pub build-TrailerFields :
      TrailerFields
        (build R request).state_indicators
        request.valid_data
        request.calibrated_time
        request.reference_lock
        request.over_range
        request.sample_loss
  unfolding build make_context_state_indicators
  build-TrailerFields =
      make_trailer-TrailerFields request.valid_data request.calibrated_time request.reference_lock
        request.over_range request.sample_loss

module _ (F : Floats) (request : ContextBuildRequest (F.R)) where
  -- A built packet is one that the serializer supports, if the identifiers and the timestamp of the
  -- request fit their words.
  pub build-ContextFits :
      request.stream_id < 2 ^ 32
      → request.timestamp.integer_seconds < 2 ^ 32
      → request.timestamp.fractional_picoseconds < 2 ^ 64
      → request.stream.receiver_id < 2 ^ 64
      → ContextFits F (build (F.R) request)
  build-ContextFits h1 h2 h3 h4 =
      let states = build-TrailerFields request in
      unfold build make_complex_int16_payload_format in
      record {
        supported = refl;
        stream_id_fits = h1;
        class_id_fits = omega arith;
        seconds_fit = h2;
        picoseconds_fit = h3;
        state_indicators_fit = states.fits;
        payload_format_fits = omega arith;
        receiver_id_fits = h4;
      }
