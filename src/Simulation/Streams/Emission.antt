-- ===== src/Simulation/Streams/Emission.antt =====
-- Flushing a receiver's blocks keeps every stream's session, and what is emitted belongs to open
-- streams.
use fers.Base.{
  ℕ, ◌+◌, ◌/◌, max, ◌%◌, ◌^◌, ◌≡◌, refl, Bool, true, false, ◌||◌, List, [], ◌∷◌, ◌++◌, Option, none,
  some, Bool-cases, inl, inr, if◌then◌else◌, arith, length,
}
use fers.Floats.{Floats}
use fers.Simulation.Streams.{Setup}
use fers.Simulation.Streams.Blocks.{
  State, Block, set_stream, ensure_stream_open, advance_cursor, emit_block, is_empty,
  set_downsampler, start_downsampler, emit_filtered, flush_downsampler, clear_block,
  input_sample_rate, flush_filtered, flush_unfiltered, flush_full_block, flush_block, submit_each,
  flush_if_full, gather, flush_blocks,
}
use fers.Simulation.Streams.Session.{
  mentions, session, next_stage, Session, is_open, Keeps, kept, keep, stay, Keeps-refl, Keeps-trans,
  set_stream-Keeps, ensure_stream_open-Keeps, ensure_stream_open-is_open,
}

module _ (F : Floats) (S : Type 0) (setup : Setup F S) (i : ℕ) where
  open F use {R, double}
  open setup use {rate, filters, with_noise, with_interference}
  open filters use {Filter, new_filter, ratio, output_sample_count, consume, finish, take_output}

  abbrev Now : Type 0
  Now = State F S setup

  abbrev Blocks : Type 0
  Blocks = List (Block F S setup)

  -- An operation that returns blocks: after it the streams of these are open.
  pub data Emits (s : Now) (r : Now × Blocks) : Type 0 where
    emits :
        Keeps F S setup i s r.0
        → (Session F S setup i s → mentions i r.1 ≡ true → is_open F S setup i r.0 ≡ true)
        → Emits s r

  pub Emits-Keeps : {s : Now} {r : Now × Blocks} → Emits s r → Keeps F S setup i s r.0
  Emits-Keeps (emits f g) = f

  emitted :
      {s : Now} {r : Now × Blocks}
      → Emits s r
      → Session F S setup i s
      → mentions i r.1 ≡ true
      → is_open F S setup i r.0 ≡ true
  emitted (emits f g) = g

  Emits-none : {s s' : Now} → Keeps F S setup i s s' → Emits s (s', [])
  unfolding mentions
  Emits-none f = emits f (λ h g. ground arith)

  Emits-before : {s t : Now} {r : Now × Blocks} → Keeps F S setup i s t → Emits t r → Emits s r
  Emits-before f (emits g k) = emits (Keeps-trans F S setup i f g) (λ h. k (keep F S setup i f h))

  Emits-after :
      {s s' : Now} {r : Now × Blocks} → Emits s r → Keeps F S setup i r.0 s' → Emits s (s', r.1)
  Emits-after (emits f g) k =
      emits (Keeps-trans F S setup i f k) (λ h m. stay F S setup i k (keep F S setup i f h) (g h m))

  Emits-if :
      (b : Bool) {s : Now} {x y : Now × Blocks}
      → Emits s x
      → Emits s y
      → Emits s (if b then x else y)
  Emits-if true f g = f
  Emits-if false f g = g

  emit_block-Emits :
      (rx : ℕ) (time sample_rate : R) (samples : List S) (start : ℕ) (s : Now)
      → double.le sample_rate (double.of_ℕ 0) ≡ false
      → Emits s (emit_block F S setup rx time sample_rate samples start s)
  unfolding emit_block advance_cursor mentions
  emit_block-Emits rx time sample_rate samples start s positive =
      let opened = ensure_stream_open F S setup rx time sample_rate s in
      let cursor = start + length (with_noise rx start samples) in
      Emits-if (is_empty samples) (Emits-none (Keeps-refl F S setup i s)) (
        Emits-after
          (emits (ensure_stream_open-Keeps F S setup i rx time sample_rate s) (λ h m.
            ensure_stream_open-is_open F S setup i rx time sample_rate s positive (ground arith)))
          (set_stream-Keeps F S setup i rx
            (record (opened.streams rx) { sample_cursor = cursor % 2 ^ 64 }) opened refl refl))

  mentions-append : (xs ys : Blocks) → mentions i (xs ++ ys) ≡ (mentions i xs || mentions i ys)
  unfolding mentions
  mentions-append [] ys = refl
  mentions-append (x ∷ xs) ys = ground (arith, mentions-append xs ys)

  -- Blocks that are gathered: what emits the later ones closes none of the streams of the first.
  Emits-join : {s : Now} {r q : Now × Blocks} → Emits s r → Emits r.0 q → Emits s (q.0, r.1 ++ q.1)
  Emits-join {s} {r} {q} (emits f g) (emits k l) = emits (Keeps-trans F S setup i f k) (λ h m.
      let now = keep F S setup i f h in
      elim (Bool-cases (mentions i r.1)) [
        | inl among ↦ stay F S setup i k now (g h among)
        | inr absent ↦ l now (ground (arith, mentions-append r.1 q.1))
      ])

  set_downsampler-Keeps :
      (rx : ℕ) (filter : Option Filter) (s : Now)
      → Keeps F S setup i s (set_downsampler F S setup rx filter s)
  set_downsampler-Keeps rx filter s =
      set_stream-Keeps F S setup i rx (record (s.streams rx) { downsampler = filter }) s refl refl

  start_downsampler-Keeps :
      (rx index : ℕ) (time : R) (s : Now)
      → Keeps F S setup i s (start_downsampler F S setup rx index time s)
  unfolding start_downsampler
  start_downsampler-Keeps rx index time s = by_filter (s.streams rx).downsampler
    where
      by_filter :
          (filter : Option Filter)
          → Keeps F S setup i s (elim filter [
            | some filter ↦ s
            | none ↦
                set_stream F S setup rx
                  (record (s.streams rx) {
                    downsampler = some new_filter;
                    base_index = index / max 1 ratio;
                    segment_start_time = time;
                  })
                  s
          ])
      by_filter (some filter) = Keeps-refl F S setup i s
      by_filter none = set_stream-Keeps F S setup i rx _ s refl refl

  clear_block-Keeps :
      (rx : ℕ) (finished : Bool) (s : Now)
      → Keeps F S setup i s (clear_block F S setup rx finished s)
  unfolding clear_block
  clear_block-Keeps rx finished s = set_stream-Keeps F S setup i rx _ s refl refl

  module _ (positive : double.le rate (double.of_ℕ 0) ≡ false)
      (positive_input : double.le (input_sample_rate F S setup) (double.of_ℕ 0) ≡ false) where
    emit_filtered-Emits :
        (rx index : ℕ) (output : List S) (s : Now)
        → Emits s (emit_filtered F S setup rx index output s)
    unfolding emit_filtered
    emit_filtered-Emits rx index output s = emit_block-Emits rx _ rate output _ s positive

    flush_downsampler-Emits :
        (rx : ℕ) (filter : Option Filter) (s : Now)
        → Emits s (flush_downsampler F S setup rx filter s)
    unfolding flush_downsampler
    flush_downsampler-Emits rx none s = Emits-none (Keeps-refl F S setup i s)
    flush_downsampler-Emits rx (some filter) s =
        Emits-after (Emits-before (set_downsampler-Keeps rx _ s) (emit_filtered-Emits rx _ _ _))
          (set_downsampler-Keeps rx none _)

    flush_filtered-Emits :
        (rx : ℕ) (finished : Bool) (block : List S) (s : Now)
        → Emits s (flush_filtered F S setup rx finished block s)
    unfolding flush_filtered
    flush_filtered-Emits rx finished block s =
        Emits-before
          (Keeps-trans F S setup i (start_downsampler-Keeps rx _ _ s)
            (set_downsampler-Keeps rx _ _))
          (emit_filtered-Emits rx _ _ _)

    either_positive :
        (b : Bool)
        → double.le (if b then input_sample_rate F S setup else rate) (double.of_ℕ 0) ≡ false
    either_positive true = positive_input
    either_positive false = positive

    flush_block-Emits :
        (rx : ℕ) (finished : Bool) (s : Now) → Emits s (flush_block F S setup rx finished s)
    unfolding flush_block flush_full_block flush_unfiltered
    flush_block-Emits rx finished s =
        Emits-if _
          (Emits-if finished (flush_downsampler-Emits rx _ s)
            (Emits-none (Keeps-refl F S setup i s)))
          (Emits-after
            (Emits-if _ (flush_filtered-Emits rx finished _ s)
              (emit_block-Emits rx _ _ _ _ s (either_positive (setup.dechirp_enabled rx))))
            (clear_block-Keeps rx finished _))

    gather-Emits :
        (full : Bool) (receivers : List ℕ) (s : Now) → Emits s (gather F S setup full receivers s)
    unfolding gather flush_if_full
    gather-Emits full [] s = Emits-none (Keeps-refl F S setup i s)
    gather-Emits full (rx ∷ others) s =
        let flushed = flush_if_full F S setup full rx s in
        let first : Emits s flushed =
          Emits-if _ (flush_block-Emits rx false s) (Emits-none (Keeps-refl F S setup i s)) in
        Emits-join first (gather-Emits full others flushed.0)

    submit_each-Keeps :
        (s : Now) (r : Now × Blocks) → Emits s r → Keeps F S setup i s (submit_each F S setup r)
    unfolding submit_each session next_stage
    submit_each-Keeps s (s', []) e = Emits-Keeps e
    submit_each-Keeps s (s', block ∷ blocks) e = kept (λ h. ground (
      arith,
      keep F S setup i (Emits-Keeps e) h,
      stay F S setup i (Emits-Keeps e) h,
      emitted e h,
    ))

    pub flush_last-Keeps :
        (rx : ℕ) (s : Now)
        → Keeps F S setup i s (submit_each F S setup (flush_block F S setup rx true s))
    flush_last-Keeps rx s = submit_each-Keeps s _ (flush_block-Emits rx true s)

    pub flush_blocks-Keeps :
        (full : Bool) (s : Now) → Keeps F S setup i s (flush_blocks F S setup full s)
    unfolding flush_blocks
    flush_blocks-Keeps full s = submit_each-Keeps s _ (gather-Emits full setup.receivers s)
