-- ===== src/Simulation/Radar/Resampling/Placement.antt =====
-- The blocks that a resampled receiver puts out follow one another.
use fers.Base.{
  ℕ, ◌+◌, ◌≤◌, ◌<◌, ◌%◌, ◌^◌, ◌≡◌, refl, Bool, true, false, List, [], ◌∷◌, Option, none, some,
  Result, ok, err, Error, throw_if, ◌>>=◌, ◌>>◌, if◌then◌else◌, arith, leb, length,
}
use fers.Floats.{Floats}
use mathlib.Core.Path.{subst, sym}
use fers.Simulation.Radar.Resampling.Calls.{
  IfEvent, segment_begins, block_comes, segment_ends, flushed, if_step, if_run,
}
use fers.Simulation.Radar.Resampling.{
  Resampler, ResamplerPlan, Chain, emit_output, append_output, advance_output_zeros, feed_zeros,
  consume_zeros_until, begin_with, begin_segment, feed_block, initialize_resampling,
  consume_in_order, consume_block, end_segment, finish_output, flush_with, flush_resampling,
}

module _ (F : Floats) (S : Type 0) (resampler : Resampler S) (start_time end_time : F.R) where
  open F use {R, double}
  open resampler use {Filter, consume, consume_zero_input, take_output, finish}

  abbrev Now : Type 0
  Now = Chain F S resampler start_time end_time

  -- Each block ends where the next begins, or before, and the last at a bound or before.
  abbrev pub Placed : ℕ → List (ℕ × List S) → Type 0
  Placed bound [] = Unit {0}
  Placed bound ((start, samples) ∷ blocks) = (start + length samples ≤ bound) × Placed start blocks

  -- The output cursor counts modulo 2^64, and until it wraps the blocks are in place.
  abbrev pub InPlace : Now → Type 0
  InPlace chain =
      (chain.output_cursor ≡ chain.advanced % 2 ^ 64)
      × (chain.advanced < 2 ^ 64 → Placed chain.advanced chain.emitted)

  Placed-later : (a b : ℕ) (blocks : List (ℕ × List S)) → a ≤ b → Placed a blocks → Placed b blocks
  Placed-later a b [] h p = tt
  Placed-later a b ((start, samples) ∷ blocks) h p = (omega (arith, h, p.0), p.1)

  emit_output-InPlace :
      (samples : List S) (chain : Now)
      → InPlace chain
      → InPlace (emit_output F S resampler start_time end_time samples chain)
  unfolding emit_output
  emit_output-InPlace [] chain p = p
  emit_output-InPlace (x ∷ samples) chain p =
      (omega (arith, p.0), λ h. (omega (arith, p.0, h), placed h))
    where
      placed :
          chain.advanced + length (x ∷ samples) < 2 ^ 64 → Placed chain.output_cursor chain.emitted
      placed h =
          let e : chain.advanced ≡ chain.output_cursor = omega (arith, p.0, h) in
          subst (λ n. Placed n chain.emitted) e (p.1 (omega (arith, h)))

  append_output-InPlace :
      (samples : List S) (chain : Now)
      → InPlace chain
      → InPlace (append_output F S resampler start_time end_time samples chain)
  unfolding append_output
  append_output-InPlace samples chain p = emit_output-InPlace _ _ p

  advance_output_zeros-InPlace :
      (count : ℕ) (chain : Now)
      → InPlace chain
      → InPlace (advance_output_zeros F S resampler start_time end_time count chain)
  unfolding advance_output_zeros
  advance_output_zeros-InPlace count chain p = (
    omega (arith, p.0),
    λ h. Placed-later chain.advanced _ chain.emitted (omega arith) (p.1 (omega (arith, h))),
  )

  if-InPlace : (b : Bool) (a c : Now) → InPlace a → InPlace c → InPlace (if b then a else c)
  if-InPlace true a c p q = p
  if-InPlace false a c p q = q

  elim-InPlace :
      {A : Type 0} (o : Option A) (a : Now) (f : A → Now)
      → InPlace a
      → ((x : A) → InPlace (f x))
      → InPlace (elim o [ none ↦ a | some x ↦ f x ])
  elim-InPlace none a f p q = p
  elim-InPlace (some x) a f p q = q x

  -- A call keeps the placement where it returns.
  pub data Returns (r : Result Now) : Type 0 where
    returns : ((chain : Now) → r ≡ ok chain → InPlace chain) → Returns r

  returned : {r : Result Now} → Returns r → (chain : Now) → r ≡ ok chain → InPlace chain
  returned (returns f) = f

  Returns-ok : (chain : Now) → InPlace chain → Returns (ok chain)
  Returns-ok chain p = returns (λ other e. subst InPlace (ok-injective e) p)
    where
      ok-injective : {a b : Now} → Path (Result Now) (ok a) (ok b) → a ≡ b
      ok-injective e = ground arith

  Returns-bind :
      (r : Result Now) (after : Now → Result Now)
      → Returns r
      → ((chain : Now) → InPlace chain → Returns (after chain))
      → Returns (r >>= after)
  Returns-bind (err e) after f g = returns (λ chain h. ground arith)
  Returns-bind (ok chain) after f g = g chain (returned f chain refl)

  Returns-throw_if :
      (test : Bool) (e : Error) (after : Result Now)
      → Returns after
      → Returns (throw_if test e >> after)
  Returns-throw_if true e after f = returns (λ chain h. ground arith)
  Returns-throw_if false e after f = f

  Returns-if : (b : Bool) {r t : Result Now} → Returns r → Returns t → Returns (if b then r else t)
  Returns-if true f g = f
  Returns-if false f g = g

  Returns-elim :
      {A : Type 0} (o : Option A) {r : Result Now} {f : A → Result Now}
      → Returns r
      → ((a : A) → Returns (f a))
      → Returns (elim o [ none ↦ r | some a ↦ f a ])
  Returns-elim none p q = p
  Returns-elim (some a) p q = q a

  Returns-err : (e : Error) → Returns (err e)
  Returns-err e = returns (λ chain h. ground arith)

  consume_zeros_until-Returns :
      (target : ℕ) (chain : Now)
      → InPlace chain
      → Returns (consume_zeros_until F S resampler start_time end_time target chain)
  unfolding consume_zeros_until feed_zeros
  consume_zeros_until-Returns target chain p = Returns-elim chain.sink (Returns-err _) (λ filter.
      Returns-ok _ (
        if-InPlace (leb target chain.input_cursor) chain
          (feed_zeros F S resampler start_time end_time target filter chain) p
          (advance_output_zeros-InPlace _ _ (append_output-InPlace _ _ p))))

  begin_segment-Returns :
      (time : R) (chain : Now)
      → InPlace chain
      → Returns (begin_segment F S resampler start_time end_time time chain)
  unfolding begin_segment begin_with
  begin_segment-Returns time chain p = Returns-elim chain.sink (Returns-ok _ p) (λ filter.
      Returns-elim chain.plan (Returns-ok _ p)
        (λ plan. Returns-bind _ _ (consume_zeros_until-Returns _ _ p) (λ fed q. Returns-ok _ q)))

  feed_block-Returns :
      (block : List S) (chain : Now)
      → InPlace chain
      → Returns (feed_block F S resampler start_time end_time block chain)
  unfolding feed_block
  feed_block-Returns block chain p =
      Returns-elim chain.sink (Returns-err _) (λ filter. Returns-ok _ (append_output-InPlace _ _ p))

  consume_block-Returns :
      (block : List S) (time : R) (chain : Now)
      → InPlace chain
      → Returns (consume_block F S resampler start_time end_time block time chain)
  unfolding consume_block consume_in_order
  consume_block-Returns block time chain p = Returns-elim chain.sink (Returns-err _) (λ filter.
      Returns-elim chain.plan (Returns-err _) (λ plan.
        Returns-bind _ _
          (Returns-if chain.segment_active (Returns-ok _ p) (begin_segment-Returns _ _ p))
          (λ begun q. Returns-throw_if _ _ _ (
            Returns-bind _ _ (consume_zeros_until-Returns _ _ q)
              (λ fed r. feed_block-Returns _ _ r)))))

  end_segment-InPlace :
      (chain : Now) → InPlace chain → InPlace (end_segment F S resampler start_time end_time chain)
  unfolding end_segment
  end_segment-InPlace chain p =
      elim-InPlace chain.sink chain (λ filter. record chain { segment_active = false }) p
        (λ filter. p)

  flush_with-Returns :
      (plan : Option (ResamplerPlan R)) (chain : Now)
      → InPlace chain
      → Returns (flush_with F S resampler start_time end_time plan chain)
  unfolding flush_with finish_output
  flush_with-Returns none chain p = Returns-ok _ p
  flush_with-Returns (some plan) chain p =
      Returns-bind _ _ (consume_zeros_until-Returns _ _ p) (λ fed q. Returns-ok _ (
        elim-InPlace fed.sink fed
          (λ filter. append_output F S resampler start_time end_time (finish filter) fed) q
          (λ filter. append_output-InPlace _ _ q)))

  flush_resampling-Returns :
      (chain : Now)
      → InPlace chain
      → Returns (flush_resampling F S resampler start_time end_time chain)
  unfolding flush_resampling
  flush_resampling-Returns chain p = Returns-elim chain.sink (Returns-ok _ p) (λ filter.
      Returns-bind _ _ (flush_with-Returns _ _ (end_segment-InPlace chain p))
        (λ flushed q. Returns-ok _ q))

  if_step-Returns :
      (e : IfEvent R S) (chain : Now)
      → InPlace chain
      → Returns (if_step F S resampler start_time end_time e chain)
  unfolding if_step
  if_step-Returns (segment_begins time) chain p = begin_segment-Returns time chain p
  if_step-Returns (block_comes block time) chain p = consume_block-Returns block time chain p
  if_step-Returns segment_ends chain p = Returns-ok _ (end_segment-InPlace chain p)
  if_step-Returns flushed chain p = flush_resampling-Returns chain p

  if_run-Returns :
      (events : List (IfEvent R S)) (chain : Now)
      → InPlace chain
      → Returns (if_run F S resampler start_time end_time events chain)
  unfolding if_run
  if_run-Returns [] chain p = Returns-ok chain p
  if_run-Returns (e ∷ events) chain p =
      Returns-bind _ _ (if_step-Returns e chain p) (λ next q. if_run-Returns events next q)

  -- For an initialised receiver that has put nothing out and every list of calls that returns, where
  -- the resampler has put out or skipped fewer than 2^64 samples, the warm-up not counted, and
  -- whatever these are: the blocks given to the output callback are in order and do not overlap, and
  -- the last ends where the output cursor stands or before.
  pub if_run-InPlace :
      (plan : ResamplerPlan R) (filter : Filter) (chain : Now) (events : List (IfEvent R S))
      (last : Now)
      → chain.emitted ≡ []
      → if_run F S resampler start_time end_time events
          (initialize_resampling F S resampler start_time end_time plan filter chain)
        ≡ ok last
      → last.advanced < 2 ^ 64
      → Placed last.output_cursor last.emitted
  unfolding initialize_resampling
  if_run-InPlace plan filter chain events last fresh h fits =
      let placed : InPlace last =
        returned
          (if_run-Returns events
            (initialize_resampling F S resampler start_time end_time plan filter chain)
            (refl, λ _. subst (Placed 0) (sym fresh) tt))
          last h in
      let e : last.advanced ≡ last.output_cursor = omega (arith, placed.0, fits) in
      subst (λ n. Placed n last.emitted) e (placed.1 fits)
