-- ===== src/Memory/Exact.antt =====
-- The clamped counts against exact ones.
use fers.Base.{
  ℕ, zero, suc, ◌+◌, ◌*◌, ◌/◌, ◌%◌, ◌^◌, ◌≤◌, ◌<◌, min, ◌≡◌, refl, sym, Bool, false, ◌||◌, List, [],
  ◌∷◌, some, Result, ok, err, Result-cases, Bool-cases, lt→ltb, if◌then◌else◌, arith, ltb, inl, inr,
}
use mathlib.Core.Path.{subst}
use native.Mathlib.Nat.{
  mul-le-mul_right, suc-mul, zero-mul, mul_comm, lt-div-mul-add, div-mul-le_self,
}
use fers.Floats.{Floats}
use fers.Simulation.Radar.{Receiver, is_pulsed}
use fers.Simulation.Events.{sum_by}
use fers.Memory.Flags.{add_bytes-unflagged, Unclamped, add_receivers-Unclamped}
use fers.Memory.{
  max_uint64, ByteProjection, counted, add_bytes, multiply_bytes, Totals, Projection, Settings,
  ProjectedReceiver, downsampled_sample_count, count_pulsed_windows, resident_samples,
  rendered_samples, add_streaming_receiver, window_samples, pulsed_samples, add_pulsed_receiver,
  add_receiver, add_receivers, no_totals, phase_noise_samples, phase_noise_lookup, with_footprint,
  project_simulation_memory,
}

-- A projection of an exact count: it is the count, up to the largest value, and where no overflow is
-- flagged the count is exact.
abbrev pub Represents : ℕ → ByteProjection → Type 0
Represents n p = (p.bytes ≡ min n max_uint64) × (p.overflowed ≡ false → n ≤ max_uint64)

pub add_bytes-Represents :
    (m n : ℕ) (p q : ByteProjection)
    → Represents m p
    → Represents n q
    → Represents (m + n) (add_bytes p q)
unfolding add_bytes
add_bytes-Represents m n p q h g = ground arith

-- A factor that exceeds the quotient makes a product that exceeds the dividend.
over_quotient : (bound m n : ℕ) → 0 < m → ltb (bound / m) n ≡ ltb bound (m * n)
over_quotient bound m n h = elim (Bool-cases (ltb (bound / m) n)) [
  | inl over ↦
      let above : suc (bound / m) * m ≤ n * m = mul-le-mul_right m (ground arith) in
      ground (
        arith,
        above,
        suc-mul (bound / m) m,
        mul_comm m n,
        lt-div-mul-add {a = bound} h,
        lt→ltb bound (m * n),
      )
  | inr within ↦
      let below : n * m ≤ bound / m * m = mul-le-mul_right m (ground arith) in
      ground (arith, below, mul_comm m n, div-mul-le_self bound m)
]

pub multiply_bytes-Represents :
    (m n : ℕ) (overflowed : Bool) → Represents (m * n) (multiply_bytes m n overflowed)
unfolding multiply_bytes
multiply_bytes-Represents zero n overflowed = ground (arith, zero-mul n)
multiply_bytes-Represents (suc m) n overflowed =
    ground (arith, over_quotient max_uint64 (suc m) n (omega arith))

-- A clamped count of samples, of 16 bytes each.
clamped-sixteen :
    (n : ℕ) (overflowed : Bool)
    → Represents (n * 16) (multiply_bytes (min n max_uint64) 16 overflowed)
clamped-sixteen n overflowed =
    ground (arith, multiply_bytes-Represents (min n max_uint64) 16 overflowed)

clamped-add :
    (n : ℕ) (q : ByteProjection)
    → (add_bytes (counted (min n max_uint64)) q).bytes ≡ min (n + q.bytes) max_uint64
unfolding add_bytes
clamped-add n q = ground arith

module _ (F : Floats) (settings : Settings F.R) where
  -- The windows of a pulsed receiver, none where the count throws.
  unfoldable pub windows_of : Result ByteProjection → ℕ
  windows_of (ok windows) = windows.bytes
  windows_of (err e) = 0

  -- The samples that a receiver writes, and the bytes that it keeps, in unbounded numbers, as its
  -- counts of windows and of samples give them.
  unfoldable pub written_samples : ProjectedReceiver F → ℕ
  written_samples r =
      if is_pulsed r.receiver.mode
      then windows_of (count_pulsed_windows F settings.end_time r.receiver)
        * downsampled_sample_count settings.oversample_ratio
            (window_samples F settings r.receiver).bytes
      else (rendered_samples F settings r).bytes

  unfoldable pub kept_bytes : ProjectedReceiver F → ℕ
  kept_bytes r = if is_pulsed r.receiver.mode then 0 else (resident_samples F settings r).bytes * 16

  -- The totals stand for exact counts of written samples and of kept bytes.
  abbrev Exact : ℕ → ℕ → Totals → Type 0
  Exact samples bytes totals =
      (totals.rendered_hdf5_sample_count ≡ min samples max_uint64)
      × Represents bytes totals.streaming_iq_buffers

  add_pulsed_receiver-Exact :
      (samples bytes : ℕ) (rx : Receiver F) (windows : ByteProjection) (totals : Totals)
      → Exact samples bytes totals
      → Exact
          (samples
            + windows.bytes
              * downsampled_sample_count settings.oversample_ratio
                  (window_samples F settings rx).bytes)
          bytes
          (add_pulsed_receiver F settings rx windows totals)
  unfolding add_pulsed_receiver pulsed_samples
  add_pulsed_receiver-Exact samples bytes rx windows totals h =
      let each =
        downsampled_sample_count settings.oversample_ratio (window_samples F settings rx).bytes in
      ground (
        arith,
        clamped-add samples (pulsed_samples F settings rx windows),
        multiply_bytes-Represents windows.bytes each
            (windows.overflowed || (window_samples F settings rx).overflowed),
      )

  add_streaming_receiver-Exact :
      (samples bytes : ℕ) (r : ProjectedReceiver F) (totals : Totals)
      → Exact samples bytes totals
      → Exact
          (samples + (rendered_samples F settings r).bytes)
          (bytes + (resident_samples F settings r).bytes * 16)
          (add_streaming_receiver F settings r totals)
  unfolding add_streaming_receiver
  add_streaming_receiver-Exact samples bytes r totals h =
      let resident = resident_samples F settings r in
      let kept = multiply_bytes resident.bytes 16 resident.overflowed in
      ground (
        arith,
        clamped-add samples (rendered_samples F settings r),
        add_bytes-Represents bytes (resident.bytes * 16) totals.streaming_iq_buffers kept h.1
            (multiply_bytes-Represents resident.bytes 16 resident.overflowed),
      )

  add_receiver-Exact :
      (samples bytes : ℕ) (r : ProjectedReceiver F) (totals next : Totals)
      → add_receiver F settings r totals ≡ ok next
      → Exact samples bytes totals
      → Exact (samples + written_samples r) (bytes + kept_bytes r) next
  unfolding add_receiver written_samples kept_bytes windows_of
  add_receiver-Exact samples bytes r totals next h g =
      elim (Result-cases (count_pulsed_windows F settings.end_time r.receiver)) [
        | inr (e, failed) ↦ ground (arith, add_streaming_receiver-Exact samples bytes r totals g)
        | inl (windows, found) ↦ ground (
          arith,
          add_streaming_receiver-Exact samples bytes r totals g,
          add_pulsed_receiver-Exact samples bytes r.receiver windows totals g,
        )
      ]

  add_receivers-Exact :
      (samples bytes : ℕ) (receivers : List (ProjectedReceiver F)) (totals next : Totals)
      → add_receivers F settings receivers totals ≡ ok next
      → Exact samples bytes totals
      → Exact
          (samples + sum_by written_samples receivers)
          (bytes + sum_by kept_bytes receivers)
          next
  unfolding add_receivers
  add_receivers-Exact samples bytes [] totals next h g = ground arith
  add_receivers-Exact samples bytes (r ∷ receivers) totals next h g =
      elim (Result-cases (add_receiver F settings r totals)) [
        | inr (e, failed) ↦ ground arith
        | inl (middle, first) ↦ ground (
          arith,
          add_receiver-Exact samples bytes r totals middle first g,
          add_receivers-Exact (samples + written_samples r) (bytes + kept_bytes r) receivers middle
              next,
        )
      ]

  -- The bytes of the whole run in unbounded numbers: the phase-noise lookups, the kept samples, the
  -- written ones and what is resident already.
  abbrev pub exact_footprint : List (ProjectedReceiver F) → ℕ → ℕ
  exact_footprint receivers baseline =
      phase_noise_samples F settings * (settings.enabled_timings * 8 % 2 ^ 64)
      + sum_by kept_bytes receivers
      + sum_by written_samples receivers * 16
      + baseline

  -- The footprint of a projection stands for a sum, and an unflagged one tells of a condition.
  abbrev pub Footprint : ℕ → Type 0 → Projection → Type 0
  Footprint n Condition projection =
      (p : ByteProjection) × (projection.projected_total_footprint ≡ some p)
      × Represents n p
      × (p.overflowed ≡ false → Condition)

  with_footprint-Footprint :
      (samples bytes baseline : ℕ) (totals : Totals)
      → Exact samples bytes totals
      → settings.resident_set ≡ some baseline
      → baseline ≤ max_uint64
      → Footprint
          (phase_noise_samples F settings * (settings.enabled_timings * 8 % 2 ^ 64)
            + bytes
            + samples * 16
            + baseline)
          (totals.streaming_iq_buffers.overflowed ≡ false)
          (with_footprint F settings totals)
  unfolding with_footprint
  with_footprint-Footprint samples bytes baseline totals h known fits =
      let lookups = phase_noise_lookup F settings in
      let exact_lookups =
        phase_noise_samples F settings * (settings.enabled_timings * 8 % 2 ^ 64) in
      let payload = multiply_bytes totals.rendered_hdf5_sample_count 16 false in
      let kept = add_bytes lookups totals.streaming_iq_buffers in
      let exact_payload : Represents (samples * 16) payload =
        subst (λ n. Represents (samples * 16) (multiply_bytes n 16 false)) (sym h.0)
          (clamped-sixteen samples false) in
      (
        add_bytes (add_bytes kept payload) (counted baseline),
        simp known refl,
        add_bytes-Represents (exact_lookups + bytes + samples * 16) baseline
            (add_bytes kept payload) (counted baseline)
            (add_bytes-Represents (exact_lookups + bytes) (samples * 16) kept payload
              (add_bytes-Represents exact_lookups bytes lookups totals.streaming_iq_buffers
                (multiply_bytes-Represents (phase_noise_samples F settings) _ _) h.1)
              exact_payload)
            (ground arith),
        λ h.
            let sum = add_bytes-unflagged (add_bytes kept payload) (counted baseline) h in
            let parts = add_bytes-unflagged kept payload sum.0 in
            (add_bytes-unflagged lookups totals.streaming_iq_buffers parts.0).1,
      )

  -- Where the projection is made and the resident set is known and fits 64 bits, the total footprint
  -- is, up to the largest 64-bit number, the sum in unbounded numbers of the bytes of the lookups, of
  -- all receivers and of the resident set, as the counts of samples and of windows give them. Each of
  -- these counts is itself held at that number. Where the footprint flags no overflow it is that sum,
  -- and no count of the samples that a streaming receiver keeps overflowed. Of the counts of pulsed
  -- receivers that is not said.
  pub project_simulation_memory-Represents :
      (receivers : List (ProjectedReceiver F)) (projection : Projection) (baseline : ℕ)
      → project_simulation_memory F settings receivers ≡ ok projection
      → settings.resident_set ≡ some baseline
      → baseline ≤ max_uint64
      → Footprint (exact_footprint receivers baseline) (Unclamped F settings receivers) projection
  unfolding project_simulation_memory
  project_simulation_memory-Represents receivers projection baseline h known fits =
      elim (Result-cases (add_receivers F settings receivers (no_totals F settings))) [
        | inr (e, failed) ↦ ground arith
        | inl (totals, added) ↦
            let made : with_footprint F settings totals ≡ projection = ground arith in
            let exact : Exact (sum_by written_samples receivers) (sum_by kept_bytes receivers)
                totals =
              ground
                (arith, add_receivers-Exact 0 0 receivers (no_totals F settings) totals added) in
            let (p, total, represents, unflagged) =
              with_footprint-Footprint (sum_by written_samples receivers)
                (sum_by kept_bytes receivers) baseline totals exact known fits in
            subst (Footprint (exact_footprint receivers baseline) (Unclamped F settings receivers))
              made
              (
                p,
                total,
                represents,
                λ clear.
                    (add_receivers-Unclamped F settings receivers (no_totals F settings) totals
                      added (unflagged clear)).1,
              )
      ]
