-- ===== src/Vita49/Metadata.antt =====
-- The JSON metadata of a context packet: the `make*MetadataJson` functions of
-- packages/libfers/src/serial/vita49/vita49_serializer.cpp. Objects are built as `nlohmann::json`
-- values here; printing one is that library's.
use fers.Base.{ℕ, Bool, not, ◌&&◌, ◌||◌, Option, none, some, if◌then◌else◌}
use fers.Base.Int.{ℤ, pos}
use fers.Base.Text.{Text, lit, text_eq, is_empty}
use fers.Floats.{Floats}
use fers.Vita49.Descriptor.{ContextPacket}

mutual
  pub data Json (R : Type 0) : Type 0 where
    null : Json R
    boolean : Bool → Json R
    integer : ℤ → Json R
    number : R → Json R
    text : Text → Json R
    object : Fields R → Json R

  pub data Fields (R : Type 0) : Type 0 where
    end : Fields R
    field : Text → Json R → Fields R → Fields R

-- `result[key] = value` for a key that is not there yet.
unfoldable pub put : {R : Type 0} → Text → Json R → Fields R → Fields R
put k v end = field k v end
put k v (field j w fs) = field j w (put k v fs)

module _ (F : Floats) where
  open F use {R, double}

  count : ℕ → Json R
  count n = integer (pos n)

  or_null : {A : Type 0} → (A → Json R) → Option A → Json R
  or_null f none = null
  or_null f (some a) = f a

  carrier : R → R → R
  carrier own reference = if not (double.eq own (double.of_ℕ 0)) then own else reference

  unfoldable pub make_cw_metadata_json : ContextPacket R → Json R
  unfolding count carrier
  make_cw_metadata_json packet = object (
      field (lit "present") (boolean packet.cw.present) (
        field (lit "waveform_id") (count packet.cw.waveform_id) (
          field (lit "waveform_name") (text packet.cw.waveform_name) (
            field (lit "carrier_hz")
              (number (carrier packet.cw.carrier_frequency packet.reference_frequency))
              (field (lit "power_w") (number packet.cw.power) end)))))

  unfoldable pub make_pulsed_metadata_json : ContextPacket R → Json R
  unfolding count carrier put
  make_pulsed_metadata_json packet =
      let p = packet.pulsed in
      let result : Fields R = field (lit "present") (boolean p.present) (
        field (lit "waveform_id") (count p.waveform_id) (
          field (lit "waveform_name") (text p.waveform_name) (
            field (lit "carrier_hz")
              (number (carrier p.carrier_frequency packet.reference_frequency))
              (field (lit "power_w") (number p.power) (
                field (lit "pulse_width_s") (number p.pulse_width) (
                  field (lit "native_sample_rate_hz") (number p.native_sample_rate) (
                    field (lit "native_sample_count") (count p.native_sample_count) (
                      field (lit "window_length_s") (number p.window_length) (
                        field (lit "window_prf_hz") (number p.window_prf) (
                          field (lit "window_skip_s") (number p.window_skip)
                            (field (lit "window_count") (count p.window_count) end))))))))))) in
      object (
        put (lit "pri_s")
          (if double.lt (double.of_ℕ 0) p.window_prf
            then number (double.div (double.of_ℕ 1) p.window_prf)
            else null)
          result)

  unfoldable pub make_fmcw_metadata_json : ContextPacket R → Json R
  unfolding count or_null
  make_fmcw_metadata_json packet =
      let p = packet.fmcw in
      let reference : Fields R = field (lit "dechirp_mode") (text p.dechirp_mode) (
        field (lit "dechirp_reference_source") (text p.dechirp_reference_source) (
          field (lit "dechirp_reference_transmitter_id") (count p.dechirp_reference_transmitter_id)
            (field (lit "dechirp_reference_transmitter_name")
              (text p.dechirp_reference_transmitter_name)
              (field (lit "dechirp_reference_waveform_id") (count p.dechirp_reference_waveform_id) (
                field (lit "dechirp_reference_waveform_name")
                  (text p.dechirp_reference_waveform_name) end))))) in
      let counts : Fields R = field (lit "triangle_period_s") (or_null number p.triangle_period) (
        field (lit "chirp_count") (or_null count p.chirp_count) (
          field (lit "triangle_count") (or_null count p.triangle_count) (
            field (lit "sampled_duration_s") (or_null number p.sampled_duration)
              (field (lit "sampled_count") (or_null count p.sampled_count) reference)))) in
      object (
        field (lit "present") (boolean p.present) (
          field (lit "waveform_shape") (text p.waveform_shape) (
            field (lit "chirp_bandwidth_hz") (number p.chirp_bandwidth) (
              field (lit "chirp_duration_s") (number p.chirp_duration) (
                field (lit "chirp_period_s") (number p.chirp_period) (
                  field (lit "chirp_rate_hz_per_s") (number p.chirp_rate) (
                    field (lit "chirp_rate_signed_hz_per_s") (number p.chirp_rate_signed) (
                      field (lit "sweep_direction") (text p.sweep_direction) (
                        field (lit "start_frequency_offset_hz") (number p.start_frequency_offset)
                          counts)))))))))

  unfoldable pub make_sfcw_metadata_json : ContextPacket R → Json R
  unfolding count or_null put
  make_sfcw_metadata_json packet =
      let p = packet.sfcw in
      let frequencies : Fields R = field (lit "first_frequency_hz") (number p.first_frequency) (
        field (lit "last_frequency_hz") (number p.last_frequency) (
          field (lit "frequency_span_hz") (number p.frequency_span)
            (field (lit "effective_bandwidth_hz") (number p.effective_bandwidth) end))) in
      let result : Fields R = field (lit "present") (boolean p.present) (
        field (lit "waveform_id") (count p.waveform_id) (
          field (lit "waveform_name") (text p.waveform_name) (
            field (lit "carrier_hz") (number p.carrier_frequency) (
              field (lit "start_frequency_offset_hz") (number p.start_frequency_offset) (
                field (lit "step_size_hz") (number p.step_size) (
                  field (lit "step_count") (count p.step_count) (
                    field (lit "dwell_time_s") (number p.dwell_time) (
                      field (lit "step_period_s") (number p.step_period) (
                        field (lit "sweep_period_s") (number p.sweep_period) frequencies))))))))) in
      object (put (lit "sweep_count") (or_null count p.sweep_count) result)

  -- A waveform entry that refers to the metadata of its kind.
  kind_with_ref : Text → Json R
  kind_with_ref kind =
      object (field (lit "kind") (text kind) (field (lit "metadata_ref") (text kind) end))

  unfoldable pub make_waveform_metadata_json : ContextPacket R → Json R
  unfolding kind_with_ref
  make_waveform_metadata_json packet =
      if text_eq packet.receiver_mode (lit "fmcw")
      then kind_with_ref (lit "fmcw")
      else if text_eq packet.receiver_mode (lit "sfcw")
      then kind_with_ref (lit "sfcw")
      else if text_eq packet.receiver_mode (lit "pulsed")
      then kind_with_ref (lit "pulsed")
      else if text_eq packet.receiver_mode (lit "cw")
      then kind_with_ref (lit "cw")
      else if packet.fmcw.present
      then kind_with_ref (lit "fmcw")
      else if packet.sfcw.present
      then kind_with_ref (lit "sfcw")
      else if packet.pulsed.present
      then kind_with_ref (lit "pulsed")
      else if packet.cw.present
      then kind_with_ref (lit "cw")
      else object (
          field (lit "kind")
            (text (if is_empty packet.receiver_mode then lit "unknown" else packet.receiver_mode))
            end)

  unfoldable pub has_known_receiver_mode : ContextPacket R → Bool
  has_known_receiver_mode packet =
      text_eq packet.receiver_mode (lit "fmcw")
      || text_eq packet.receiver_mode (lit "sfcw")
      || text_eq packet.receiver_mode (lit "pulsed")
      || text_eq packet.receiver_mode (lit "cw")

  -- The guard of each optional section.
  unfoldable pub wants_section : ContextPacket R → Text → Bool → Bool
  unfolding has_known_receiver_mode
  wants_section packet mode present =
      text_eq packet.receiver_mode mode || (not (has_known_receiver_mode packet) && present)

  put_if : Bool → Text → Json R → Fields R → Fields R
  put_if b k v fs = if b then put k v fs else fs

  -- The entries that every packet has.
  unfoldable pub base_metadata : ContextPacket R → Fields R
  unfolding count
  base_metadata packet =
      let c = packet.coordinate in
      let s = packet.initial_platform_state in
      let receiver : Fields R = field (lit "id") (count packet.receiver_id) (
        field (lit "name") (text packet.receiver_name) (
          field (lit "mode") (text packet.receiver_mode) (
            field (lit "adc_bits") (count packet.adc_bits)
              (field (lit "context_flags") (count packet.context_flags) end)))) in
      let origin : Fields R = field (lit "latitude") (number c.origin_latitude) (
        field (lit "longitude") (number c.origin_longitude)
          (field (lit "altitude") (number c.origin_altitude) end)) in
      let frame : Fields R = field (lit "frame") (text c.frame) (
        field (lit "origin") (object origin) (
          field (lit "utm_zone") (integer c.utm_zone)
            (field (lit "utm_north_hemisphere") (boolean c.utm_north_hemisphere) end))) in
      let position : Fields R =
        field (lit "x") (number s.position_x)
          (field (lit "y") (number s.position_y) (field (lit "z") (number s.position_z) end)) in
      let velocity : Fields R =
        field (lit "x") (number s.velocity_x)
          (field (lit "y") (number s.velocity_y) (field (lit "z") (number s.velocity_z) end)) in
      let rotation : Fields R =
        field (lit "azimuth") (number s.azimuth)
          (field (lit "elevation") (number s.elevation) end) in
      let state : Fields R = field (lit "platform_id") (count s.platform_id) (
        field (lit "platform_name") (text s.platform_name) (
          field (lit "position_m") (object position) (
            field (lit "velocity_mps") (object velocity)
              (field (lit "rotation_rad") (object rotation) end)))) in
      field (lit "schema") (text (lit "fers-vita49-context-v1")) (
        field (lit "simulation_name") (text packet.simulation_name) (
          field (lit "receiver") (object receiver) (
            field (lit "coordinate_frame") (object frame) (
              field (lit "initial_platform_state") (object state)
                (field (lit "waveform") (make_waveform_metadata_json packet) end)))))

  unfoldable pub make_context_metadata_json : ContextPacket R → Json R
  unfolding put_if wants_section put
  make_context_metadata_json packet =
      let with_pulsed =
        put_if (wants_section packet (lit "pulsed") packet.pulsed.present) (lit "pulsed")
          (make_pulsed_metadata_json packet) (base_metadata packet) in
      let with_cw =
        put_if (wants_section packet (lit "cw") packet.cw.present) (lit "cw")
          (make_cw_metadata_json packet) with_pulsed in
      let with_fmcw =
        put_if (wants_section packet (lit "fmcw") packet.fmcw.present) (lit "fmcw")
          (make_fmcw_metadata_json packet) with_cw in
      object (
        put_if (wants_section packet (lit "sfcw") packet.sfcw.present) (lit "sfcw")
          (make_sfcw_metadata_json packet) with_fmcw)
