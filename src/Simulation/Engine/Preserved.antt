-- ===== src/Simulation/Engine/Preserved.antt =====
-- What every operation of the rest of the engine keeps holds at the end of the event loop, and of the
-- run, however the events come.
use mathlib.Core.Path.{subst}
use fers.Base.{
  ℕ, zero, suc, ◌≡◌, refl, Bool, true, false, not, ◌&&◌, Option, none, some, if◌then◌else◌,
}
use fers.Floats.{Floats}
use fers.Simulation.Sources.{ActiveStreamingSource}
use fers.Simulation.Events.{
  Event, EventType, tx_pulsed_start, rx_pulsed_window_start, rx_pulsed_window_end,
  tx_streaming_start, tx_streaming_end, rx_streaming_start, rx_streaming_end,
}
use fers.Simulation.Engine.{
  Simulation, Engine, Outcome, Round, broken, handled, round, finish_round, process_event,
  process_typed, push_next, handle_tx_pulsed_start, handle_rx_pulsed_window_start,
  handle_rx_pulsed_window_end, start_source, event_loop, finish_run, run,
}
use fers.Simulation.Engine.Passes.{Pass, drains, stops, breaks, handles, event_loop-Pass}

pub record Preserves (F : Floats) (sim : Simulation F) (P : sim.System → Type 0) : Type 0 where
  pub polls : (s : sim.System) → P s → P (sim.is_cancellation_requested s).1
  pub physics : (from to : F.R) (s : sim.System) → P s → P (sim.process_streaming_physics from to s)
  pub flushes : (s : sim.System) → P s → P (sim.flush_blocks s)
  pub responds : (tx : ℕ) (t : F.R) (s : sim.System) → P s → P (sim.calculate_responses tx t s)
  pub activates : (rx : ℕ) (value : Bool) (s : sim.System) → P s → P (sim.set_active rx value s)
  pub enqueues : (rx : ℕ) (t : F.R) (s : sim.System) → P s → P (sim.enqueue_finalizer_job rx t s)
  pub starts_source :
      (source : ActiveStreamingSource F.R) (s : sim.System)
      → P s
      → P (sim.handle_tx_streaming_start source s)
  pub ends_source : (t : F.R) (s : sim.System) → P s → P (sim.handle_tx_streaming_end t s)
  pub starts_receiver :
      (rx : ℕ) (t : F.R) (s : sim.System) → P s → P (sim.handle_rx_streaming_start rx t s)
  pub ends_receiver :
      (rx : ℕ) (t : F.R) (s : sim.System) → P s → P (sim.handle_rx_streaming_end rx t s)

module _ (F : Floats) (sim : Simulation F) (P : sim.System → Type 0)
    (preserves : Preserves F sim P) where
  open F use {R}
  open sim use {events, System}
  open events use {Queue}

  keeps_if :
      (b : Bool) (x y : Engine F sim) → P x.system → P y.system → P (if b then x else y).system
  keeps_if true x y p q = p
  keeps_if false x y p q = q

  push_next-preserves :
      (next : Option R) (type : EventType) (object : ℕ) (m : Engine F sim)
      → P m.system
      → P (push_next F sim next type object m).system
  unfolding push_next
  push_next-preserves none type object m p = p
  push_next-preserves (some next) type object m p = keeps_if _ _ m p p

  start_source-preserves :
      (source : Option (ActiveStreamingSource R)) (s : System)
      → P s
      → P (start_source F sim source s)
  unfolding start_source
  start_source-preserves none s p = p
  start_source-preserves (some source) s p = preserves.starts_source source s p

  process_typed-preserves :
      (type : EventType) (object : ℕ) (t : R) (m : Engine F sim)
      → P m.system
      → P (process_typed F sim type object t m).system
  unfolding process_typed handle_tx_pulsed_start handle_rx_pulsed_window_start
      handle_rx_pulsed_window_end
  process_typed-preserves tx_pulsed_start object t m p =
      push_next-preserves _ tx_pulsed_start object _ (preserves.responds object t m.system p)
  process_typed-preserves rx_pulsed_window_start object t m p =
      preserves.activates object true m.system p
  process_typed-preserves rx_pulsed_window_end object t m p =
      push_next-preserves _ rx_pulsed_window_start object _
        (preserves.enqueues object t _ (preserves.activates object false m.system p))
  process_typed-preserves tx_streaming_start object t m p = start_source-preserves _ m.system p
  process_typed-preserves tx_streaming_end object t m p =
      preserves.ends_source m.t_current m.system p
  process_typed-preserves rx_streaming_start object t m p =
      preserves.starts_receiver object m.t_current m.system p
  process_typed-preserves rx_streaming_end object t m p =
      preserves.ends_receiver object m.t_current m.system p

  -- What a round leaves satisfies the predicate.
  data Holds : Round F sim → Type 0 where
    holds_broken : (m : Engine F sim) → P m.system → Holds (broken m)
    holds_handled : (m : Engine F sim) → P m.system → Holds (handled m)

  abbrev after_round : Round F sim → System
  after_round (broken m) = m.system
  after_round (handled m) = m.system

  Holds-after_round : (r : Round F sim) → Holds r → P (after_round r)
  Holds-after_round _ (holds_broken m p) = p
  Holds-after_round _ (holds_handled m p) = p

  Holds-if : (b : Bool) (x y : Round F sim) → Holds x → Holds y → Holds (if b then x else y)
  Holds-if true x y p q = p
  Holds-if false x y p q = q

  round-Holds :
      (e : Event R) (rest : Queue) (m : Engine F sim) → P m.system → Holds (round F sim e rest m)
  unfolding round finish_round process_event
  round-Holds e rest m p =
      let asked = sim.is_cancellation_requested m.system in
      let sampled = sim.process_streaming_physics m.t_current e.timestamp asked.1 in
      let again = sim.is_cancellation_requested sampled in
      let first = preserves.polls m.system p in
      let second =
        preserves.polls sampled (preserves.physics m.t_current e.timestamp asked.1 first) in
      let before : Engine F sim = record {
        t_current = e.timestamp;
        queue = rest;
        system = sim.flush_blocks again.1;
      } in
      let there : Engine F sim = record m {
        t_current = sim.physics_time m.t_current e.timestamp asked.1;
      } in
      let went =
        process_typed-preserves e.type e.source_object e.timestamp before
          (preserves.flushes again.1 second) in
      Holds-if asked.0 (broken (record m { system = asked.1 }))
        (finish_round F sim e rest there again) (holds_broken (record m { system = asked.1 }) first)
        (Holds-if again.0 (broken (record there { queue = rest; system = again.1 }))
          (handled (process_event F sim e before))
          (holds_broken (record there { queue = rest; system = again.1 }) second)
          (holds_handled (process_event F sim e before) went))

  round-preserves :
      (e : Event R) (rest : Queue) (m : Engine F sim)
      → P m.system
      → P (after_round (round F sim e rest m))
  round-preserves e rest m p = Holds-after_round _ (round-Holds e rest m p)

  Pass-preserves :
      (n : ℕ) (m : Engine F sim) (o : Outcome F sim)
      → Pass F sim n m o
      → P m.system
      → ((m' : Engine F sim) → P m'.system → P (event_loop F sim n m').engine.system)
      → P o.engine.system
  Pass-preserves n m _ (drains h) p next = p
  Pass-preserves n m _ (stops e rest h g) p next = p
  Pass-preserves n m _ (breaks e rest m' broke) p next =
      subst (λ r. P (after_round r)) broke (round-preserves e rest m p)
  Pass-preserves n m _ (handles e rest m' popped within went) p next =
      next m' (subst (λ r. P (after_round r)) went (round-preserves e rest m p))

  pub event_loop-preserves :
      (n : ℕ) (m : Engine F sim) → P m.system → P (event_loop F sim n m).engine.system
  unfolding event_loop
  event_loop-preserves zero m p = p
  event_loop-preserves (suc n) m p =
      Pass-preserves n m _ (event_loop-Pass F sim n m) p (event_loop-preserves n)

  keeps_system : (b : Bool) (x y : System) → P x → P y → P (if b then x else y)
  keeps_system true x y p q = p
  keeps_system false x y p q = q

  -- The state that the shutdown of a run starts from.
  abbrev pub final : ℕ → Engine F sim → System
  final n m =
      let last = (event_loop F sim n m).engine in
      let asked = sim.is_cancellation_requested last.system in
      sim.flush_blocks (
        if not asked.0 && sim.has_active_if_overrender asked.1
        then sim.process_streaming_physics last.t_current sim.internal_stop_time asked.1
        else asked.1)

  pub final-preserves : (n : ℕ) (m : Engine F sim) → P m.system → P (final n m)
  final-preserves n m p =
      let asked = preserves.polls _ (event_loop-preserves n m p) in
      let s = (sim.is_cancellation_requested (event_loop F sim n m).engine.system).1 in
      let physics = preserves.physics (event_loop F sim n m).engine.t_current in
      preserves.flushes _ (keeps_system _ _ s (physics sim.internal_stop_time s asked) asked)

  pub run-final : (n : ℕ) (m : Engine F sim) → run F sim n m ≡ sim.shutdown (final n m)
  unfolding run finish_run
  run-final n m = refl
