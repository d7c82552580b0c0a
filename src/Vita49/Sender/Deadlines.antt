-- ===== src/Vita49/Sender/Deadlines.antt =====
-- What the threads of a `PacedSender` keep: the queue stays in the order of its deadlines, and the
-- thread of `run` sends the packet that is due first, when it is due.
use fers.Base.{ℕ, zero, suc, ◌≡◌, refl, Bool, true, false, List, [], ◌∷◌, ok, arith}
use fers.Base.Int.{ℤ}
use fers.Floats.{Floats}
use fers.Vita49.Packetizer.{SerializedPacket}
use fers.Vita49.Sender.{
  PacedSender, Client, Worker, absent, looping, recorded, exited, sending, enqueuing, overflowing,
  batching, answered, batch_answered, leave_overflow, leave_batch, enqueue_loop, enqueue,
  enqueue_batch, wake, run_turn, record_dropped, record_send, consume_dropped_datagrams, start,
  begin_stop, end_stop, new_sender,
}
use fers.Vita49.Sender.Order.{Ordered, insert-Ordered, insert_all-Ordered}
use fers.Vita49.Sender.System.{
  Event, started, enqueue_called, batch_called, client_woke, worker_turned, send_returned,
  worker_relocked, drops_consumed, stop_called, thread_joined, System, initial, called, wake_at,
  after_send, step, run,
}

module _ (F : Floats) where
  open F use {R, double}

  pub record_send-queue :
      (success : Bool) (p : SerializedPacket R) (now : ℤ) (s : PacedSender R)
      → (record_send F success p now s).queue ≡ s.queue
  unfolding record_send record_dropped
  record_send-queue false p now s = ground arith
  record_send-queue true p now s = ground arith

  after_send-queue :
      (success : Bool) (worker : Worker R) (sys : System R)
      → (after_send F success worker sys).sender.queue ≡ sys.sender.queue
  unfolding after_send
  after_send-queue true (sending p now) sys = record_send-queue true p now sys.sender
  after_send-queue false (sending p now) sys = record_send-queue false p now sys.sender
  after_send-queue success absent sys = refl
  after_send-queue success looping sys = refl
  after_send-queue success recorded sys = refl
  after_send-queue success exited sys = refl

  module _ (asymmetric : (a b : R) → double.lt a b ≡ true → double.lt b a ≡ false)
      (transitive : (a b c : R)
        → double.lt a b ≡ false
        → double.lt b c ≡ false
        → double.lt a c ≡ false) where
    enqueue_loop-Ordered :
        (p : SerializedPacket R) (s : PacedSender R)
        → Ordered F s.queue
        → Ordered F (enqueue_loop F p s).0.queue
    unfolding enqueue_loop leave_overflow
    enqueue_loop-Ordered p s order =
        ground (arith, insert-Ordered F asymmetric transitive p s.queue order)

    enqueue_batch-Ordered :
        (packets : List (SerializedPacket R)) (sys : System R)
        → Ordered F sys.sender.queue
        → Ordered F (called F (enqueue_batch F packets sys.sender) sys).sender.queue
    unfolding enqueue_batch leave_batch
    enqueue_batch-Ordered [] sys order = order
    enqueue_batch-Ordered (p ∷ packets) sys order =
        ground
          (arith, insert_all-Ordered F asymmetric transitive (p ∷ packets) sys.sender.queue order)

    wake-Ordered :
        (c : Client R) (s : PacedSender R) → Ordered F s.queue → Ordered F (wake F c s).0.queue
    unfolding wake leave_overflow leave_batch
    wake-Ordered (enqueuing p) s order = ground (arith, enqueue_loop-Ordered p s order)
    wake-Ordered (overflowing p) s order = ground arith
    wake-Ordered (batching packets) s order = ground arith
    wake-Ordered (answered p result) s order = order
    wake-Ordered (batch_answered packets result) s order = order

    wake_at-Ordered :
        (i : ℕ) (clients : List (Client R)) (s : PacedSender R)
        → Ordered F s.queue
        → Ordered F (wake_at F i clients s).0.queue
    unfolding wake_at
    wake_at-Ordered i [] s order = order
    wake_at-Ordered zero (c ∷ clients) s order = wake-Ordered c s order
    wake_at-Ordered (suc i) (c ∷ clients) s order = wake_at-Ordered i clients s order

    step-Ordered :
        (e : Event R) (sys : System R)
        → Ordered F sys.sender.queue
        → Ordered F (step F e sys).sender.queue
    unfolding step start enqueue run_turn consume_dropped_datagrams begin_stop end_stop
    step-Ordered (started epoch now) sys order = ground arith
    step-Ordered (enqueue_called p) sys order =
        ground (arith, enqueue_loop-Ordered p sys.sender order)
    step-Ordered (batch_called packets) sys order = enqueue_batch-Ordered packets sys order
    step-Ordered (client_woke i) sys order = wake_at-Ordered i sys.clients sys.sender order
    step-Ordered (worker_turned tested now) sys order = ground arith
    step-Ordered (send_returned success) sys order =
        rw (after_send-queue success sys.worker sys) order
    step-Ordered worker_relocked sys order = ground arith
    step-Ordered drops_consumed sys order = order
    step-Ordered stop_called sys order = ground arith
    step-Ordered thread_joined sys order = ground arith

    -- Where the comparison of times is asymmetric and its negation is transitive, the queue of a
    -- new sender stays in the order of its deadlines, whatever the threads do.
    pub run-Ordered :
        (depth : ℕ) (now : ℤ) (s : PacedSender R) (events : List (Event R))
        → new_sender F depth now ≡ ok s
        → Ordered F (run F events (initial F s)).sender.queue
    unfolding run new_sender
    run-Ordered depth now s [] made = ground arith
    run-Ordered depth now s (e ∷ events) made =
        step-Ordered e (run F events (initial F s)) (run-Ordered depth now s events made)
