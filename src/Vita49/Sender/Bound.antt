-- ===== src/Vita49/Sender/Bound.antt =====
-- How many packets a `PacedSender` holds.
use fers.Base.{
  ℕ, zero, suc, ◌+◌, ◌≤◌, ◌≡◌, refl, Bool, true, false, List, [], ◌∷◌, ok, arith, length,
  if◌then◌else◌,
}
use fers.Base.Int.{ℤ}
use fers.Floats.{Floats}
use fers.Vita49.Packetizer.{SerializedPacket}
use fers.Vita49.Sender.{
  PacedSender, Client, Worker, absent, looping, recorded, exited, sending, enqueuing, overflowing,
  batching, answered, batch_answered, insert, queued_or_sending_count, leave_overflow, leave_batch,
  enqueue_loop, enqueue, wake, run_turn, record_dropped, record_send, consume_dropped_datagrams,
  start, begin_stop, end_stop, new_sender,
}
use fers.Vita49.Sender.Lifecycle.{Life, run-Life}
use fers.Vita49.Sender.System.{
  Event, started, enqueue_called, batch_called, client_woke, worker_turned, send_returned,
  worker_relocked, drops_consumed, stop_called, thread_joined, System, initial, called, wake_at,
  after_send, step, run,
}

module _ {R : Type 0} where
  -- No call of `enqueueBatch`.
  unfoldable pub singly : List (Event R) → Bool
  singly [] = true
  singly (batch_called packets ∷ events) = false
  singly (e ∷ events) = singly events

  singly-cons :
      (e : Event R) (events : List (Event R))
      → singly (e ∷ events) ≡ true
      → (singly (e ∷ []) ≡ true) × (singly events ≡ true)
  unfolding singly
  singly-cons (started t now) events h = (refl, h)
  singly-cons (enqueue_called p) events h = (refl, h)
  singly-cons (batch_called packets) events h = cc
  singly-cons (client_woke i) events h = (refl, h)
  singly-cons (worker_turned t now) events h = (refl, h)
  singly-cons (send_returned success) events h = (refl, h)
  singly-cons worker_relocked events h = (refl, h)
  singly-cons drops_consumed events h = (refl, h)
  singly-cons stop_called events h = (refl, h)
  singly-cons thread_joined events h = (refl, h)

module _ (F : Floats) where
  open F use {R}

  length-insert :
      (p : SerializedPacket R) (queue : List (SerializedPacket R))
      → length (insert F p queue) ≡ length queue + 1
  unfolding insert
  length-insert p [] = omega arith
  length-insert p (q ∷ queue) = ground (arith, length-insert p queue)

  -- A sender that is not stopping holds at most its depth, and one more during an insertion out of
  -- turn.
  abbrev Bounded : ℕ → PacedSender R → Type 0
  Bounded depth s =
      (s.queue_depth ≡ depth)
      × (queued_or_sending_count F s ≤ depth + 1)
      × ((s.stopping ≡ false)
          → queued_or_sending_count F s
            ≤ depth + (if s.priority_overflow_in_progress then 1 else 0))

  enqueue_loop-Bounded :
      (depth : ℕ) (p : SerializedPacket R) (s : PacedSender R)
      → s.stopping ≡ false
      → Bounded depth s
      → Bounded depth (enqueue_loop F p s).0
  unfolding enqueue_loop leave_overflow queued_or_sending_count
  enqueue_loop-Bounded depth p s going h = ground (arith, length-insert p s.queue)

  enqueue-Bounded :
      (depth : ℕ) (p : SerializedPacket R) (sys : System R)
      → Bounded depth sys.sender
      → Bounded depth (called F (enqueue F p sys.sender) sys).sender
  unfolding enqueue
  enqueue-Bounded depth p sys h = ground (arith, enqueue_loop-Bounded depth p sys.sender)

  wake-Bounded :
      (depth : ℕ) (c : Client R) (s : PacedSender R)
      → Bounded depth s
      → Bounded depth (wake F c s).0
  unfolding wake leave_overflow leave_batch queued_or_sending_count
  wake-Bounded depth (enqueuing p) s h = ground (arith, enqueue_loop-Bounded depth p s)
  wake-Bounded depth (overflowing p) s h = ground arith
  wake-Bounded depth (batching packets) s h = ground arith
  wake-Bounded depth (answered p result) s h = h
  wake-Bounded depth (batch_answered packets result) s h = h

  wake_at-Bounded :
      (depth i : ℕ) (clients : List (Client R)) (s : PacedSender R)
      → Bounded depth s
      → Bounded depth (wake_at F i clients s).0
  unfolding wake_at
  wake_at-Bounded depth i [] s h = h
  wake_at-Bounded depth zero (c ∷ clients) s h = wake-Bounded depth c s h
  wake_at-Bounded depth (suc i) (c ∷ clients) s h = wake_at-Bounded depth i clients s h

  after_send-Bounded :
      (depth : ℕ) (success : Bool) (worker : Worker R) (sys : System R)
      → Bounded depth sys.sender
      → Bounded depth (after_send F success worker sys).sender
  unfolding after_send record_send record_dropped queued_or_sending_count
  after_send-Bounded depth true (sending p now) sys h = ground arith
  after_send-Bounded depth false (sending p now) sys h = ground arith
  after_send-Bounded depth success absent sys h = h
  after_send-Bounded depth success looping sys h = h
  after_send-Bounded depth success recorded sys h = h
  after_send-Bounded depth success exited sys h = h

  step-Bounded :
      (depth : ℕ) (e : Event R) (sys : System R)
      → singly (e ∷ []) ≡ true
      → Life sys
      → Bounded depth sys.sender
      → Bounded depth (step F e sys).sender
  unfolding step start enqueue run_turn consume_dropped_datagrams begin_stop end_stop singly
      queued_or_sending_count
  step-Bounded depth (started epoch now) sys one life h = ground arith
  step-Bounded depth (enqueue_called p) sys one life h = enqueue-Bounded depth p sys h
  step-Bounded depth (batch_called packets) sys one life h = absurd (ground arith)
  step-Bounded depth (client_woke i) sys one life h =
      wake_at-Bounded depth i sys.clients sys.sender h
  step-Bounded depth (worker_turned tested now) sys one life h = ground arith
  step-Bounded depth (send_returned success) sys one life h =
      after_send-Bounded depth success sys.worker sys h
  step-Bounded depth worker_relocked sys one life h = ground arith
  step-Bounded depth drops_consumed sys one life h = h
  step-Bounded depth stop_called sys one life h = ground arith
  step-Bounded depth thread_joined sys one life h = ground arith

  run-Bounded :
      (depth : ℕ) (now : ℤ) (s : PacedSender R) (events : List (Event R))
      → new_sender F depth now ≡ ok s
      → singly events ≡ true
      → Bounded depth (run F events (initial F s)).sender
  unfolding run new_sender singly queued_or_sending_count
  run-Bounded depth now s [] made one = ground arith
  run-Bounded depth now s (e ∷ events) made one =
      let (first, rest) = singly-cons e events one in
      step-Bounded depth e (run F events (initial F s)) first (run-Life F depth now s events made)
        (run-Bounded depth now s events made rest)

  -- When packets are only enqueued one at a time, the sender never holds more than one packet over its
  -- depth, the one in flight included.
  pub run-queued_or_sending_count :
      (depth : ℕ) (now : ℤ) (s : PacedSender R) (events : List (Event R))
      → new_sender F depth now ≡ ok s
      → singly events ≡ true
      → queued_or_sending_count F (run F events (initial F s)).sender ≤ depth + 1
  run-queued_or_sending_count depth now s events made one =
      (run-Bounded depth now s events made one).1
