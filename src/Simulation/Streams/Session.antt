-- ===== src/Simulation/Streams/Session.antt =====
-- The order of the calls that a stream sees at the output sink, and the operations on one receiver's
-- blocks that keep it.
use fers.Base.{
  ℕ, ◌≡◌, refl, ◌∙◌, Bool, true, false, not, ◌||◌, List, [], ◌∷◌, Option, none, some, inl, inr,
  Bool-cases, if◌then◌else◌, arith, ◌==◌, ==_iff,
}
use fers.Floats.{Floats}
use fers.Simulation.Streams.{
  Setup, Stream, SampleBlock, SinkCall, register_stream, open_stream, submit_blocks,
  emit_context_heartbeat, close_stream,
}
use fers.Simulation.Streams.Blocks.{
  State, set_stream, register_once, describe, open_once, ensure_stream_open,
}

pub data Stage : Type 0 where
  unregistered closed opened : Stage

abbrev pub registering : Stage → Option Stage
registering unregistered = some closed
registering _ = none

abbrev pub opening : Stage → Option Stage
opening closed = some opened
opening _ = none

abbrev pub submitting : Stage → Option Stage
submitting opened = some opened
submitting _ = none

abbrev pub closing : Stage → Option Stage
closing opened = some closed
closing _ = none

module _ {R S : Type 0} where
  -- Whether a block of a receiver is among some.
  unfoldable pub mentions : ℕ → List (SampleBlock R S) → Bool
  mentions rx [] = false
  mentions rx (block ∷ blocks) = rx == block.receiver || mentions rx blocks

  -- What a call makes of the stage of a receiver's stream; none is a call out of order.
  unfoldable pub next_stage : ℕ → SinkCall R S → Stage → Option Stage
  next_stage rx (register_stream other rate) stage =
      if rx == other then registering stage else some stage
  next_stage rx (open_stream other time) stage = if rx == other then opening stage else some stage
  next_stage rx (submit_blocks blocks) stage =
      if mentions rx blocks then submitting stage else some stage
  next_stage rx (emit_context_heartbeat time) stage = some stage
  next_stage rx (close_stream other) stage = if rx == other then closing stage else some stage

  -- The stage after calls that are all in order; the latest call is the first.
  unfoldable pub session : ℕ → List (SinkCall R S) → Option Stage
  session rx [] = some unregistered
  session rx (c ∷ calls) = elim (session rx calls) [
    | some stage ↦ next_stage rx c stage
    | none ↦ none
  ]

module _ {R S Filter : Type 0} where
  abbrev pub stage_of : Stream R S Filter → Stage
  stage_of stream =
      if stream.stream_open then opened else if stream.registered then closed else unregistered

module _ (F : Floats) (S : Type 0) (setup : Setup F S) (i : ℕ) where
  open F use {R, double}

  -- A receiver's calls are in order, and lead to where its entries say; an open stream is registered.
  abbrev pub Session : State F S setup → Type 0
  Session s =
      (session i s.calls ≡ some (stage_of (s.streams i)))
      × ((not (s.streams i).stream_open || (s.streams i).registered) ≡ true)

  abbrev pub is_open : State F S setup → Bool
  is_open s = (s.streams i).stream_open

  -- An operation keeps the session, and does not close the stream.
  pub data Keeps (s s' : State F S setup) : Type 0 where
    kept : (Session s → Session s' × (is_open s ≡ true → is_open s' ≡ true)) → Keeps s s'

  pub keep : {s s' : State F S setup} → Keeps s s' → Session s → Session s'
  keep (kept f) h = (f h).0

  pub stay :
      {s s' : State F S setup} → Keeps s s' → Session s → is_open s ≡ true → is_open s' ≡ true
  stay (kept f) h = (f h).1

  register_once-Keeps :
      (rx : ℕ) (rate : R) (s : State F S setup) → Keeps s (register_once F S setup rx rate s)
  unfolding register_once session next_stage
  register_once-Keeps rx rate s = kept (λ h. elim (Bool-cases (i == rx)) [
    | inl same ↦ ground (arith, ==_iff i rx)
    | inr other ↦ ground (arith, ==_iff i rx)
  ])

  is_registered : State F S setup → Bool
  is_registered s = (s.streams i).registered

  pub Keeps-refl : (s : State F S setup) → Keeps s s
  Keeps-refl s = kept (λ h. (h, λ now. now))

  pub Keeps-trans : {a b c : State F S setup} → Keeps a b → Keeps b c → Keeps a c
  Keeps-trans f g = kept (λ h. (keep g (keep f h), λ now. stay g (keep f h) (stay f h now)))

  pub Keeps-if :
      (b : Bool) {s x y : State F S setup} → Keeps s x → Keeps s y → Keeps s (if b then x else y)
  Keeps-if true f g = f
  Keeps-if false f g = g

  -- Entries other than these two flags do not matter.
  pub set_stream-Keeps :
      (rx : ℕ) (stream : Stream R S setup.filters.Filter) (s : State F S setup)
      → stream.registered ≡ (s.streams rx).registered
      → stream.stream_open ≡ (s.streams rx).stream_open
      → Keeps s (set_stream F S setup rx stream s)
  set_stream-Keeps rx stream s g k = kept (λ h. ground (arith, ==_iff i rx))

  register_once-registered :
      (rx : ℕ) (rate : R) (s : State F S setup)
      → (i == rx) ≡ true
      → is_registered (register_once F S setup rx rate s) ≡ true
  unfolding register_once is_registered
  register_once-registered rx rate s h = ground (arith, ==_iff i rx)

  describe-registered :
      (rx : ℕ) (s : State F S setup) → is_registered (describe F S setup rx s) ≡ is_registered s
  unfolding describe is_registered
  describe-registered rx s = ground (arith, ==_iff i rx)

  describe-Keeps : (rx : ℕ) (s : State F S setup) → Keeps s (describe F S setup rx s)
  unfolding describe
  describe-Keeps rx s = set_stream-Keeps rx (record (s.streams rx) { described = true }) s refl refl

  open_once-Keeps :
      (rx : ℕ) (time : R) (s : State F S setup)
      → ((i == rx) ≡ true → is_registered s ≡ true)
      → Keeps s (open_once F S setup rx time s)
  unfolding open_once session next_stage is_registered
  open_once-Keeps rx time s g = kept (λ h. elim (Bool-cases (i == rx)) [
    | inl same ↦ ground (arith, ==_iff i rx)
    | inr other ↦ ground (arith, ==_iff i rx)
  ])

  open_once-is_open :
      (rx : ℕ) (time : R) (s : State F S setup)
      → (i == rx) ≡ true
      → is_open (open_once F S setup rx time s) ≡ true
  unfolding open_once
  open_once-is_open rx time s h = ground (arith, ==_iff i rx)

  pub ensure_stream_open-Keeps :
      (rx : ℕ) (time rate : R) (s : State F S setup)
      → Keeps s (ensure_stream_open F S setup rx time rate s)
  unfolding ensure_stream_open
  ensure_stream_open-Keeps rx time rate s =
      let registered = register_once F S setup rx rate s in
      let described = describe F S setup rx registered in
      Keeps-if _ (Keeps-refl s) (
        Keeps-trans (register_once-Keeps rx rate s) (
          Keeps-trans (describe-Keeps rx registered) (
            open_once-Keeps rx time described (λ same.
              describe-registered rx registered ∙ register_once-registered rx rate s same))))

  pub ensure_stream_open-is_open :
      (rx : ℕ) (time rate : R) (s : State F S setup)
      → double.le rate (double.of_ℕ 0) ≡ false
      → (i == rx) ≡ true
      → is_open (ensure_stream_open F S setup rx time rate s) ≡ true
  unfolding ensure_stream_open
  ensure_stream_open-is_open rx time rate s h g = ground (
    arith,
    ==_iff i rx,
    open_once-is_open rx time (describe F S setup rx (register_once F S setup rx rate s)),
  )
