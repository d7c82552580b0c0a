-- ===== src/Memory/Flags.antt =====
-- What a projection tells that flags no overflow.
use fers.Base.{ℕ, ◌≡◌, Bool, false, List, [], ◌∷◌, ok, Result-cases, Bool-cases, arith, inl, inr}
use fers.Floats.{Floats}
use fers.Simulation.Radar.{is_pulsed}
use fers.Memory.{
  ByteProjection, add_bytes, multiply_bytes, Totals, Settings, ProjectedReceiver,
  count_pulsed_windows, resident_samples, add_streaming_receiver, add_pulsed_receiver, add_receiver,
  add_receivers,
}

-- A sum or a product that flags no overflow has no operand that does.
pub add_bytes-unflagged :
    (p q : ByteProjection)
    → (add_bytes p q).overflowed ≡ false
    → (p.overflowed ≡ false) × (q.overflowed ≡ false)
unfolding add_bytes
add_bytes-unflagged p q h = ground arith

multiply_bytes-unflagged :
    (m n : ℕ) (overflowed : Bool)
    → (multiply_bytes m n overflowed).overflowed ≡ false
    → overflowed ≡ false
unfolding multiply_bytes
multiply_bytes-unflagged m n overflowed h = ground arith

module _ (F : Floats) (settings : Settings F.R) where
  -- No count of samples that a streaming receiver keeps is clamped.
  abbrev pub Unclamped : List (ProjectedReceiver F) → Type 0
  Unclamped [] = Unit {0}
  Unclamped (r ∷ receivers) =
      (is_pulsed r.receiver.mode ≡ false → (resident_samples F settings r).overflowed ≡ false)
      × Unclamped receivers

  add_receiver-unflagged :
      (r : ProjectedReceiver F) (totals next : Totals)
      → add_receiver F settings r totals ≡ ok next
      → next.streaming_iq_buffers.overflowed ≡ false
      → (totals.streaming_iq_buffers.overflowed ≡ false)
        × (is_pulsed r.receiver.mode ≡ false → (resident_samples F settings r).overflowed ≡ false)
  unfolding add_receiver add_streaming_receiver add_pulsed_receiver
  add_receiver-unflagged r totals next h g =
      let resident = resident_samples F settings r in
      let kept = multiply_bytes resident.bytes 16 resident.overflowed in
      elim (Bool-cases (is_pulsed r.receiver.mode)) [
        | inl pulsed ↦ elim (Result-cases (count_pulsed_windows F settings.end_time r.receiver)) [
          | inr (e, failed) ↦ ground arith
          | inl (windows, found) ↦ (ground arith, λ streaming. ground arith)
        ]
        | inr streaming ↦
            (let both : (add_bytes totals.streaming_iq_buffers kept).overflowed ≡ false =
                ground arith in
              let operands = add_bytes-unflagged totals.streaming_iq_buffers kept both in
              (
                operands.0,
                λ _. multiply_bytes-unflagged resident.bytes 16 resident.overflowed operands.1,
              ))
      ]

  pub add_receivers-Unclamped :
      (receivers : List (ProjectedReceiver F)) (totals next : Totals)
      → add_receivers F settings receivers totals ≡ ok next
      → next.streaming_iq_buffers.overflowed ≡ false
      → (totals.streaming_iq_buffers.overflowed ≡ false) × Unclamped receivers
  unfolding add_receivers
  add_receivers-Unclamped [] totals next h g = (ground arith, tt)
  add_receivers-Unclamped (r ∷ receivers) totals next h g =
      elim (Result-cases (add_receiver F settings r totals)) [
        | inr (e, failed) ↦ ground arith
        | inl (middle, first) ↦
            (let rest = add_receivers-Unclamped receivers middle next (ground arith) g in
              let here = add_receiver-unflagged r totals middle first rest.0 in
              (here.0, (here.1, rest.1)))
      ]
