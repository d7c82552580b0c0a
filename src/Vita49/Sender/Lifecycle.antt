-- ===== src/Vita49/Sender/Lifecycle.antt =====
-- The states that a `PacedSender` and its threads pass through from `start` to the end of `stop`.
use fers.Base.{
  ℕ, zero, suc, ◌≡◌, refl, Bool, true, false, List, [], ◌∷◌, Result, ok, err, arith, Bool-cases,
  inl, inr,
}
use fers.Base.Int.{ℤ}
use fers.Floats.{Floats}
use fers.Vita49.Packetizer.{SerializedPacket}
use fers.Vita49.Sender.{
  PacedSender, Client, Worker, absent, looping, recorded, exited, sending, enqueuing, overflowing,
  batching, answered, batch_answered, leave_overflow, leave_batch, enqueue_loop, enqueue,
  enqueue_batch, wake, run_turn, record_dropped, record_send, consume_dropped_datagrams, start,
  begin_stop, end_stop, new_sender,
}
use fers.Vita49.Sender.System.{
  Event, started, enqueue_called, batch_called, client_woke, worker_turned, send_returned,
  worker_relocked, drops_consumed, stop_called, thread_joined, System, initial, called, wake_at,
  after_send, step, run,
}

-- What holds of the sender at each place of the thread: its thread runs while it is started, a packet
-- is in flight as the flag says, it is stopping while `stop` waits, and a thread that has ended has
-- left the queue empty.
abbrev pub Phase : {R : Type 0} → Worker R → PacedSender R → Bool → Type 0
Phase absent s joining =
    (s.started ≡ false) × (s.stopping ≡ false) × (joining ≡ false) × (s.send_in_progress ≡ false)
Phase looping s joining = (s.started ≡ true) × (s.stopping ≡ joining) × (s.send_in_progress ≡ false)
Phase (sending p now) s joining =
    (s.started ≡ true) × (s.stopping ≡ joining) × (s.send_in_progress ≡ true)
Phase recorded s joining = (s.started ≡ true) × (s.stopping ≡ joining) × (s.send_in_progress ≡ true)
Phase exited s joining =
    (s.started ≡ true)
    × (s.stopping ≡ true)
    × (joining ≡ true)
    × (s.send_in_progress ≡ false)
    × (s.queue ≡ [])

abbrev pub Life : {R : Type 0} → System R → Type 0
Life sys = Phase sys.worker sys.sender sys.joining

-- What a caller of `enqueue` leaves alone: the flags, and the queue of a sender that stops.
pub record Kept {R : Type 0} (s s' : PacedSender R) : Type 0 where
  pub started : s'.started ≡ s.started
  pub stopping : s'.stopping ≡ s.stopping
  pub send_in_progress : s'.send_in_progress ≡ s.send_in_progress
  pub queue : s.stopping ≡ true → s'.queue ≡ s.queue

module _ {R : Type 0} where
  Kept-refl : (s : PacedSender R) → Kept s s
  Kept-refl s = record {
    started = refl;
    stopping = refl;
    send_in_progress = refl;
    queue = λ h. refl;
  }

  Phase-Kept :
      (worker : Worker R) (s s' : PacedSender R) (joining : Bool)
      → Kept s s'
      → Phase worker s joining
      → Phase worker s' joining
  Phase-Kept absent s s' joining kept life = ground arith
  Phase-Kept looping s s' joining kept life = ground arith
  Phase-Kept (sending p now) s s' joining kept life = ground arith
  Phase-Kept recorded s s' joining kept life = ground arith
  Phase-Kept exited s s' joining kept life = ground (arith, kept.queue)

module _ (F : Floats) where
  open F use {R}

  leave_overflow-Kept :
      (p : SerializedPacket R) (s : PacedSender R) → Kept s (leave_overflow F p s).0
  unfolding leave_overflow
  leave_overflow-Kept p s = record {
    started = ground arith;
    stopping = ground arith;
    send_in_progress = ground arith;
    queue = λ h. ground arith;
  }

  leave_batch-Kept :
      (packets : List (SerializedPacket R)) (s : PacedSender R) → Kept s (leave_batch F packets s).0
  unfolding leave_batch
  leave_batch-Kept packets s = record {
    started = ground arith;
    stopping = ground arith;
    send_in_progress = ground arith;
    queue = λ h. ground arith;
  }

  enqueue_loop-Kept :
      (p : SerializedPacket R) (s : PacedSender R)
      → s.stopping ≡ false
      → Kept s (enqueue_loop F p s).0
  unfolding enqueue_loop leave_overflow
  enqueue_loop-Kept p s going = record {
    started = ground arith;
    stopping = ground arith;
    send_in_progress = ground arith;
    queue = λ h. cc;
  }

  wake-Kept : (c : Client R) (s : PacedSender R) → Kept s (wake F c s).0
  unfolding wake
  wake-Kept (enqueuing p) s = elim (Bool-cases s.stopping) [
    | inl e ↦ simp e (Kept-refl s)
    | inr e ↦ simp e (enqueue_loop-Kept p s e)
  ]
  wake-Kept (overflowing p) s = leave_overflow-Kept p s
  wake-Kept (batching packets) s = leave_batch-Kept packets s
  wake-Kept (answered p result) s = Kept-refl s
  wake-Kept (batch_answered packets result) s = Kept-refl s

  pub wake_at-Kept :
      (i : ℕ) (clients : List (Client R)) (s : PacedSender R) → Kept s (wake_at F i clients s).0
  unfolding wake_at
  wake_at-Kept i [] s = Kept-refl s
  wake_at-Kept zero (c ∷ clients) s = wake-Kept c s
  wake_at-Kept (suc i) (c ∷ clients) s = wake_at-Kept i clients s

  enqueue-Kept :
      (p : SerializedPacket R) (sys : System R)
      → Kept sys.sender (called F (enqueue F p sys.sender) sys).sender
  unfolding enqueue
  enqueue-Kept p sys = elim (Bool-cases sys.sender.started) [
    | inr e ↦ simp e (Kept-refl sys.sender)
    | inl e ↦ elim (Bool-cases sys.sender.stopping) [
      | inl h ↦ simp (e, h) (Kept-refl sys.sender)
      | inr h ↦ simp (e, h) (enqueue_loop-Kept p sys.sender h)
    ]
  ]

  enqueue_batch-Kept :
      (packets : List (SerializedPacket R)) (sys : System R)
      → Kept sys.sender (called F (enqueue_batch F packets sys.sender) sys).sender
  unfolding enqueue_batch leave_batch
  enqueue_batch-Kept [] sys = Kept-refl sys.sender
  enqueue_batch-Kept (p ∷ packets) sys = record {
    started = ground arith;
    stopping = ground arith;
    send_in_progress = ground arith;
    queue = λ h. ground arith;
  }

  Life-called :
      (r : Result (PacedSender R × Client R)) (sys : System R)
      → Kept sys.sender (called F r sys).sender
      → Life sys
      → Life (called F r sys)
  Life-called (ok r) sys kept life = Phase-Kept sys.worker sys.sender r.0 sys.joining kept life
  Life-called (err e) sys kept life = life

  after_send-Life :
      (success : Bool) (worker : Worker R) (sys : System R)
      → sys.worker ≡ worker
      → Life sys
      → Life (after_send F success worker sys)
  unfolding after_send record_send record_dropped
  after_send-Life true (sending p now) sys at life = ground arith
  after_send-Life false (sending p now) sys at life = ground arith
  after_send-Life success absent sys at life = life
  after_send-Life success looping sys at life = life
  after_send-Life success recorded sys at life = life
  after_send-Life success exited sys at life = life

  step-Life : (e : Event R) (sys : System R) → Life sys → Life (step F e sys)
  unfolding step start run_turn consume_dropped_datagrams begin_stop end_stop
  step-Life (started epoch now) sys life = ground arith
  step-Life (enqueue_called p) sys life =
      Life-called (enqueue F p sys.sender) sys (enqueue-Kept p sys) life
  step-Life (batch_called packets) sys life =
      Life-called (enqueue_batch F packets sys.sender) sys (enqueue_batch-Kept packets sys) life
  step-Life (client_woke i) sys life =
      Phase-Kept sys.worker sys.sender (wake_at F i sys.clients sys.sender).0 sys.joining
        (wake_at-Kept i sys.clients sys.sender) life
  step-Life (worker_turned tested now) sys life = ground arith
  step-Life (send_returned success) sys life = after_send-Life success sys.worker sys refl life
  step-Life worker_relocked sys life = ground arith
  step-Life drops_consumed sys life =
      Phase-Kept sys.worker sys.sender (consume_dropped_datagrams F sys.sender).0 sys.joining
        (record { started = refl; stopping = refl; send_in_progress = refl; queue = λ h. refl })
        life
  step-Life stop_called sys life = ground arith
  step-Life thread_joined sys life = ground arith

  -- From a new sender on, the threads are always in one of the phases.
  pub run-Life :
      (depth : ℕ) (now : ℤ) (s : PacedSender R) (events : List (Event R))
      → new_sender F depth now ≡ ok s
      → Life (run F events (initial F s))
  unfolding run new_sender
  run-Life depth now s [] made = ground arith
  run-Life depth now s (e ∷ events) made =
      step-Life e (run F events (initial F s)) (run-Life depth now s events made)
