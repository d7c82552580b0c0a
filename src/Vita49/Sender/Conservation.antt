-- ===== src/Vita49/Sender/Conservation.antt =====
-- No packet is lost or sent twice by the threads of a `PacedSender`.
use fers.Base.{
  ℕ, zero, suc, ◌+◌, ◌≡◌, refl, Bool, true, false, List, [], ◌∷◌, Result, ok, err, arith,
  if◌then◌else◌,
}
use fers.Base.Int.{ℤ}
use fers.Floats.{Floats}
use fers.Vita49.Packetizer.{SerializedPacket}
use fers.Vita49.Sender.{
  PacedSender, Client, Worker, absent, looping, recorded, exited, sending, enqueuing, overflowing,
  batching, answered, batch_answered, leave_overflow, leave_batch, enqueue_loop, enqueue,
  enqueue_batch, wake, run_turn, consume_dropped_datagrams, start, begin_stop, end_stop, new_sender,
}
use fers.Vita49.Sender.Order.{total, total-insert, total-insert_all}
use fers.Vita49.Sender.Deadlines.{record_send-queue}
use fers.Vita49.Sender.Lifecycle.{Life, run-Life}
use fers.Vita49.Sender.System.{
  Event, started, enqueue_called, batch_called, client_woke, worker_turned, send_returned,
  worker_relocked, drops_consumed, stop_called, thread_joined, System, initial, called, wake_at,
  after_send, step, run,
}

module _ {R : Type 0} (w : SerializedPacket R → ℕ) where
  -- The weight of the packets that a call has put in the queue: those for which it returned true, or
  -- will.
  abbrev pub accepted_by : Client R → ℕ
  accepted_by (enqueuing p) = 0
  accepted_by (overflowing p) = w p
  accepted_by (batching packets) = total w packets
  accepted_by (answered p result) = if result.enqueued then w p else 0
  accepted_by (batch_answered packets result) = if result then total w packets else 0

  abbrev pub in_flight : Worker R → ℕ
  in_flight absent = 0
  in_flight looping = 0
  in_flight (sending p now) = w p
  in_flight recorded = 0
  in_flight exited = 0

  abbrev pub sent_weight : List (SerializedPacket R × ℤ) → ℕ
  sent_weight [] = 0
  sent_weight ((p, now) ∷ sent) = w p + sent_weight sent

  -- What the calls have put in the queue is there, or in flight, or was sent or failed.
  abbrev pub Conserved : System R → Type 0
  Conserved sys =
      total accepted_by sys.clients
      ≡ total w sys.sender.queue + in_flight sys.worker + sent_weight sys.sent + total w sys.failed

module _ (F : Floats) (w : SerializedPacket F.R → ℕ) where
  open F use {R}

  enqueue_loop-total :
      (p : SerializedPacket R) (s : PacedSender R)
      → total w (enqueue_loop F p s).0.queue
        ≡ accepted_by w (enqueue_loop F p s).1 + total w s.queue
  unfolding enqueue_loop leave_overflow
  enqueue_loop-total p s = ground (arith, total-insert F w p s.queue)

  enqueue_batch-total :
      (packets : List (SerializedPacket R)) (sys : System R)
      → total w (called F (enqueue_batch F packets sys.sender) sys).sender.queue
          + total (accepted_by w) sys.clients
        ≡ total (accepted_by w) (called F (enqueue_batch F packets sys.sender) sys).clients
          + total w sys.sender.queue
  unfolding enqueue_batch leave_batch total
  enqueue_batch-total [] sys = omega arith
  enqueue_batch-total (p ∷ packets) sys =
      ground (arith, total-insert_all F w (p ∷ packets) sys.sender.queue)

  called-Conserved :
      (r : Result (PacedSender R × Client R)) (sys : System R)
      → total w (called F r sys).sender.queue + total (accepted_by w) sys.clients
        ≡ total (accepted_by w) (called F r sys).clients + total w sys.sender.queue
      → Conserved w sys
      → Conserved w (called F r sys)
  called-Conserved (ok r) sys same h = omega arith
  called-Conserved (err e) sys same h = h

  drained :
      (sys : System R)
      → Life sys
      → Conserved w sys
      → sys.worker ≡ exited
      → total (accepted_by w) sys.clients ≡ sent_weight w sys.sent + total w sys.failed
  unfolding total
  drained sys life h ended = ground arith

  wake-total :
      (c : Client R) (s : PacedSender R)
      → total w (wake F c s).0.queue + accepted_by w c
        ≡ accepted_by w (wake F c s).1 + total w s.queue
  unfolding wake leave_overflow leave_batch
  wake-total (enqueuing p) s = ground (arith, enqueue_loop-total p s)
  wake-total (overflowing p) s = ground arith
  wake-total (batching packets) s = ground arith
  wake-total (answered p result) s = omega arith
  wake-total (batch_answered packets result) s = omega arith

  wake_at-total :
      (i : ℕ) (clients : List (Client R)) (s : PacedSender R)
      → total w (wake_at F i clients s).0.queue + total (accepted_by w) clients
        ≡ total (accepted_by w) (wake_at F i clients s).1 + total w s.queue
  unfolding wake_at total
  wake_at-total i [] s = omega arith
  wake_at-total zero (c ∷ clients) s = ground (arith, wake-total c s)
  wake_at-total (suc i) (c ∷ clients) s = ground (arith, wake_at-total i clients s)

  after_send-Conserved :
      (success : Bool) (worker : Worker R) (sys : System R)
      → sys.worker ≡ worker
      → Conserved w sys
      → Conserved w (after_send F success worker sys)
  unfolding after_send total
  after_send-Conserved true (sending p now) sys at h =
      ground (arith, record_send-queue F true p now sys.sender)
  after_send-Conserved false (sending p now) sys at h =
      ground (arith, record_send-queue F false p now sys.sender)
  after_send-Conserved success absent sys at h = h
  after_send-Conserved success looping sys at h = h
  after_send-Conserved success recorded sys at h = h
  after_send-Conserved success exited sys at h = h

  step-Conserved :
      (e : Event R) (sys : System R) → Life sys → Conserved w sys → Conserved w (step F e sys)
  unfolding step start enqueue run_turn consume_dropped_datagrams begin_stop end_stop total
  step-Conserved (started epoch now) sys life h = ground arith
  step-Conserved (enqueue_called p) sys life h = ground (arith, enqueue_loop-total p sys.sender)
  step-Conserved (batch_called packets) sys life h =
      called-Conserved (enqueue_batch F packets sys.sender) sys (enqueue_batch-total packets sys) h
  step-Conserved (client_woke i) sys life h = ground (arith, wake_at-total i sys.clients sys.sender)
  step-Conserved (worker_turned tested now) sys life h = ground arith
  step-Conserved (send_returned success) sys life h =
      after_send-Conserved success sys.worker sys refl h
  step-Conserved worker_relocked sys life h = ground arith
  step-Conserved drops_consumed sys life h = h
  step-Conserved stop_called sys life h = ground arith
  step-Conserved thread_joined sys life h = ground arith

  -- Whatever the threads of a new sender do, each packet that a call put in the queue is there, is in
  -- flight, was sent, or failed: the weights agree, for any weight of packets.
  pub run-Conserved :
      (depth : ℕ) (now : ℤ) (s : PacedSender R) (events : List (Event R))
      → new_sender F depth now ≡ ok s
      → Conserved w (run F events (initial F s))
  unfolding run new_sender total
  run-Conserved depth now s [] made = ground arith
  run-Conserved depth now s (e ∷ events) made =
      step-Conserved e (run F events (initial F s)) (run-Life F depth now s events made)
        (run-Conserved depth now s events made)

  -- When the thread has ended, so that `stop` goes on, each packet that a call put in the queue was
  -- sent or failed.
  pub run-drained :
      (depth : ℕ) (now : ℤ) (s : PacedSender R) (events : List (Event R))
      → new_sender F depth now ≡ ok s
      → (run F events (initial F s)).worker ≡ exited
      → total (accepted_by w) (run F events (initial F s)).clients
        ≡ sent_weight w (run F events (initial F s)).sent
          + total w (run F events (initial F s)).failed
  run-drained depth now s events made ended =
      drained (run F events (initial F s)) (run-Life F depth now s events made)
        (run-Conserved depth now s events made) ended
