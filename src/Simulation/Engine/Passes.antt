-- ===== src/Simulation/Engine/Passes.antt =====
-- One pass of the event loop, and what a handled event makes of the queue and of the time.
use fers.Base.{
  ℕ, suc, ◌≡◌, refl, ◌⊎◌, inl, inr, ◌+◌, Bool, true, false, Bool-cases, none, some, Option-cases,
  [], ◌∷◌, arith,
}
use fers.Floats.{Floats}
use fers.Simulation.Events.{Event, sum_by}
use fers.Simulation.Engine.{
  Simulation, Engine, Outcome, Finish, Round, broken, handled, round, finish_round, event_loop,
}
use fers.Simulation.Engine.Followup.{
  followup, measure, process_event-followup, process_event-t_current,
}

module _ (F : Floats) (sim : Simulation F) where
  open F use {R, double}
  open sim use {events}
  open events use {Queue, pop, contents}

  Round-cases :
      (r : Round F sim)
      → ((m : Engine F sim) × (r ≡ broken m)) ⊎ ((m : Engine F sim) × (r ≡ handled m))
  Round-cases (broken m) = inl (m, refl)
  Round-cases (handled m) = inr (m, refl)

  -- What the loop does with its next unit of fuel.
  pub data Pass (n : ℕ) (m : Engine F sim) : Outcome F sim → Type 0 where
    drains :
        pop m.queue ≡ none
        → Pass n m (record { engine = m; processed = []; finish = Finish.drained })
    stops :
        (e : Event R) (rest : Queue)
        → pop m.queue ≡ some (e, rest)
        → double.le m.t_current sim.internal_stop_time ≡ false
        → Pass n m (record { engine = m; processed = []; finish = Finish.past_stop })
    breaks :
        (e : Event R) (rest : Queue) (m' : Engine F sim)
        → round F sim e rest m ≡ broken m'
        → Pass n m (record { engine = m'; processed = []; finish = Finish.cancelled })
    handles :
        (e : Event R) (rest : Queue) (m' : Engine F sim)
        → pop m.queue ≡ some (e, rest)
        → double.le m.t_current sim.internal_stop_time ≡ true
        → round F sim e rest m ≡ handled m'
        → Pass n m
            (record (event_loop F sim n m') { processed = e ∷ (event_loop F sim n m').processed })

  pub event_loop-Pass : (n : ℕ) (m : Engine F sim) → Pass n m (event_loop F sim (suc n) m)
  unfolding event_loop
  event_loop-Pass n m = elim (Option-cases (pop m.queue)) [
    | inl empty ↦ rw (empty, event_loop) (drains empty)
    | inr ((e, rest), popped) ↦ elim (Bool-cases (double.le m.t_current sim.internal_stop_time)) [
      | inr past ↦ rw (popped, event_loop, past) (stops e rest popped past)
      | inl within ↦ elim (Round-cases (round F sim e rest m)) [
        | inl (m', broke) ↦ rw (popped, event_loop, within, broke) (breaks e rest m' broke)
        | inr (m', went) ↦
            rw (popped, event_loop, within, went) (handles e rest m' popped within went)
      ]
    ]
  ]

  abbrev pub Handled : (Event R → ℕ) → Event R → Queue → Engine F sim → Type 0
  Handled f e rest m =
      (sum_by f (contents m.queue)
        ≡ measure F sim f (followup F sim e.type e.source_object e.timestamp)
          + sum_by f (contents rest))
      × (m.t_current ≡ e.timestamp)

  finish_round-Handled :
      (f : Event R → ℕ) (e : Event R) (rest : Queue) (m m' : Engine F sim)
      (asked : Bool × sim.System)
      → finish_round F sim e rest m asked ≡ handled m'
      → Handled f e rest m'
  unfolding finish_round
  finish_round-Handled f e rest m m' (true, s) h = ground arith
  finish_round-Handled f e rest m m' (false, s) h =
      let before : Engine F sim = record {
        t_current = e.timestamp;
        queue = rest;
        system = sim.flush_blocks s;
      } in
      ground
        (arith, process_event-followup F sim f e before, process_event-t_current F sim e before)

  pub round-Handled :
      (f : Event R → ℕ) (e : Event R) (rest : Queue) (m m' : Engine F sim)
      → round F sim e rest m ≡ handled m'
      → Handled f e rest m'
  unfolding round
  round-Handled f e rest m m' h =
      let physics = sim.process_streaming_physics m.t_current e.timestamp in
      let second =
        sim.is_cancellation_requested (physics (sim.is_cancellation_requested m.system).1) in
      elim (Bool-cases (sim.is_cancellation_requested m.system).0) [
        | inl asked ↦ ground arith
        | inr unasked ↦
            (let asked = (sim.is_cancellation_requested m.system).1 in
              let there : Engine F sim = record m {
                t_current = sim.physics_time m.t_current e.timestamp asked;
              } in
              ground (arith, finish_round-Handled f e rest there m' second))
      ]
