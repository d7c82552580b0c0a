-- ===== src/Vita49/Sender/Counters.antt =====
-- The counters and reports of a `PacedSender` agree with what its datagram sender did.
use mathlib.Core.Path.{subst}
use mathlib.Core.List.{append-nil, append_assoc}
use fers.Base.{
  ℕ, zero, suc, ◌+◌, ◌%◌, ◌^◌, ◌≡◌, refl, ap, sym, ◌∙◌, Bool, true, false, not, ◌&&◌, ◌||◌, List,
  [], ◌∷◌, ◌++◌, Result, ok, err, arith, ◌==◌, ltb, if◌then◌else◌,
}
use fers.Base.Int.{ℤ}
use fers.Floats.{Floats}
use fers.Vita49.Packetizer.{SerializedPacket}
use fers.Vita49.Sender.{
  PacedSender, Client, Worker, absent, looping, recorded, exited, sending, enqueuing, overflowing,
  batching, answered, batch_answered, Counters, counter, add_counter, DroppedDatagram,
  make_dropped_datagram, leave_overflow, leave_batch, enqueue_loop, enqueue, enqueue_batch, wake,
  run_turn, record_dropped, record_send, consume_dropped_datagrams, start, begin_stop, end_stop,
  new_sender,
}
use fers.Vita49.Sender.Order.{total}
use fers.Vita49.Sender.Conservation.{sent_weight}
use fers.Vita49.Sender.System.{
  Event, started, enqueue_called, batch_called, client_woke, worker_turned, send_returned,
  worker_relocked, drops_consumed, stop_called, thread_joined, System, initial, called, wake_at,
  after_send, step, run,
}

counter-add_counter :
    (id j n : ℕ) (m : Counters)
    → counter id (add_counter j n m)
      ≡ (if j == id then (counter id m + n) % 2 ^ 64 else counter id m)
unfolding counter add_counter
counter-add_counter id j n [] = ground arith
counter-add_counter id j n ((i, k) ∷ m) = ground (arith, counter-add_counter id j n m)

module _ {R : Type 0} (id : ℕ) where
  abbrev pub of_stream : SerializedPacket R → ℕ
  of_stream p = if p.stream_id == id then 1 else 0

  abbrev pub samples_of : SerializedPacket R → ℕ
  samples_of p =
      if p.stream_id == id && (p.data_packet || (not p.context_packet && ltb 0 p.sample_count))
      then p.sample_count
      else 0

  -- The counters of one stream, which wrap at 2^64.
  abbrev pub Counted : System R → Type 0
  Counted sys =
      (counter id sys.sender.sent_packets ≡ sent_weight of_stream sys.sent % 2 ^ 64)
      × (counter id sys.sender.send_failures ≡ total of_stream sys.failed % 2 ^ 64)
      × (counter id sys.sender.dropped_samples ≡ total samples_of sys.failed % 2 ^ 64)

module _ (F : Floats) where
  open F use {R}

  -- The reports of the packets that failed, in the order of their failures.
  unfoldable pub reports : List (SerializedPacket R) → List DroppedDatagram
  reports [] = []
  reports (p ∷ failed) = reports failed ++ (make_dropped_datagram F p ∷ [])

  abbrev pub Reported : System R → Type 0
  Reported sys = sys.consumed ++ sys.sender.pending_dropped_datagrams ≡ reports sys.failed

  -- The counters and reports of a sender.
  abbrev Record : Type 0
  Record = Counters × Counters × Counters × List DroppedDatagram

  abbrev counts : PacedSender R → Record
  counts s = (s.sent_packets, s.send_failures, s.dropped_samples, s.pending_dropped_datagrams)

  enqueue_loop-counts :
      (p : SerializedPacket R) (s : PacedSender R) → counts (enqueue_loop F p s).0 ≡ counts s
  unfolding enqueue_loop leave_overflow
  enqueue_loop-counts p s = ground arith

  enqueue-counts :
      (p : SerializedPacket R) (sys : System R)
      → counts (called F (enqueue F p sys.sender) sys).sender ≡ counts sys.sender
  unfolding enqueue
  enqueue-counts p sys = ground (arith, enqueue_loop-counts p sys.sender)

  enqueue_batch-counts :
      (packets : List (SerializedPacket R)) (sys : System R)
      → counts (called F (enqueue_batch F packets sys.sender) sys).sender ≡ counts sys.sender
  unfolding enqueue_batch leave_batch
  enqueue_batch-counts [] sys = refl
  enqueue_batch-counts (p ∷ packets) sys = ground arith

  wake-counts : (c : Client R) (s : PacedSender R) → counts (wake F c s).0 ≡ counts s
  unfolding wake leave_overflow leave_batch
  wake-counts (enqueuing p) s = ground (arith, enqueue_loop-counts p s)
  wake-counts (overflowing p) s = ground arith
  wake-counts (batching packets) s = ground arith
  wake-counts (answered p result) s = refl
  wake-counts (batch_answered packets result) s = refl

  wake_at-counts :
      (i : ℕ) (clients : List (Client R)) (s : PacedSender R)
      → counts (wake_at F i clients s).0 ≡ counts s
  unfolding wake_at
  wake_at-counts i [] s = refl
  wake_at-counts zero (c ∷ clients) s = wake-counts c s
  wake_at-counts (suc i) (c ∷ clients) s = wake_at-counts i clients s

  -- What the sender and the history say of each other.
  abbrev Agrees : ℕ → Record → System R → Type 0
  Agrees id (sent, failures, samples, pending) sys =
      (counter id sent ≡ sent_weight (of_stream id) sys.sent % 2 ^ 64)
      × (counter id failures ≡ total (of_stream id) sys.failed % 2 ^ 64)
      × (counter id samples ≡ total (samples_of id) sys.failed % 2 ^ 64)
      × (sys.consumed ++ pending ≡ reports sys.failed)

  called-Agrees :
      (id : ℕ) (r : Result (PacedSender R × Client R)) (sys : System R)
      → counts (called F r sys).sender ≡ counts sys.sender
      → Agrees id (counts sys.sender) sys
      → Agrees id (counts (called F r sys).sender) (called F r sys)
  called-Agrees id (ok r) sys same h = subst (λ c. Agrees id c sys) (sym same) h
  called-Agrees id (err e) sys same h = h

  record_dropped-pending :
      (p : SerializedPacket R) (s : PacedSender R)
      → (record_dropped F p s).pending_dropped_datagrams ≡ s.pending_dropped_datagrams
  unfolding record_dropped
  record_dropped-pending p s = ground arith

  after_send-Agrees :
      (id : ℕ) (success : Bool) (worker : Worker R) (sys : System R)
      → Agrees id (counts sys.sender) sys
      → Agrees id
          (counts (after_send F success worker sys).sender)
          (after_send F success worker sys)
  unfolding after_send record_send record_dropped reports total
  after_send-Agrees id true (sending p now) sys h =
      ground (arith, counter-add_counter id p.stream_id 1 sys.sender.sent_packets)
  after_send-Agrees id false (sending p now) sys h =
      let failures = counter-add_counter id p.stream_id 1 sys.sender.send_failures in
      let samples = counter-add_counter id p.stream_id p.sample_count sys.sender.dropped_samples in
      (
        ground arith,
        ground (arith, failures),
        ground (arith, samples),
        rw
            (record_dropped-pending p (record sys.sender {
              send_failures = add_counter p.stream_id 1 sys.sender.send_failures;
            }))
            (sym (append_assoc sys.consumed sys.sender.pending_dropped_datagrams _)
              ∙ ap (λ l. l ++ (make_dropped_datagram F p ∷ [])) h.3),
      )
  after_send-Agrees id success absent sys h = h
  after_send-Agrees id success looping sys h = h
  after_send-Agrees id success recorded sys h = h
  after_send-Agrees id success exited sys h = h

  step-Agrees :
      (id : ℕ) (e : Event R) (sys : System R)
      → Agrees id (counts sys.sender) sys
      → Agrees id (counts (step F e sys).sender) (step F e sys)
  unfolding step start run_turn begin_stop end_stop consume_dropped_datagrams
  step-Agrees id (started epoch now) sys h = ground arith
  step-Agrees id (enqueue_called p) sys h =
      called-Agrees id (enqueue F p sys.sender) sys (enqueue-counts p sys) h
  step-Agrees id (batch_called packets) sys h =
      called-Agrees id (enqueue_batch F packets sys.sender) sys (enqueue_batch-counts packets sys) h
  step-Agrees id (client_woke i) sys h =
      subst (λ c. Agrees id c sys) (sym (wake_at-counts i sys.clients sys.sender)) h
  step-Agrees id (worker_turned tested now) sys h = ground arith
  step-Agrees id (send_returned success) sys h = after_send-Agrees id success sys.worker sys h
  step-Agrees id worker_relocked sys h = ground arith
  step-Agrees id drops_consumed sys h =
      (h.0, h.1, h.2, append-nil (sys.consumed ++ sys.sender.pending_dropped_datagrams) ∙ h.3)
  step-Agrees id stop_called sys h = ground arith
  step-Agrees id thread_joined sys h = ground arith

  run-Agrees :
      (id depth : ℕ) (now : ℤ) (s : PacedSender R) (events : List (Event R))
      → new_sender F depth now ≡ ok s
      → Agrees id (counts (run F events (initial F s)).sender) (run F events (initial F s))
  unfolding run new_sender total reports counter
  run-Agrees id depth now s [] made = ground arith
  run-Agrees id depth now s (e ∷ events) made =
      step-Agrees id e (run F events (initial F s)) (run-Agrees id depth now s events made)

  -- Whatever the threads do, a stream's counters are the numbers of its packets that were sent and that
  -- failed, and of the samples in the failed ones, modulo 2^64.
  pub run-Counted :
      (id depth : ℕ) (now : ℤ) (s : PacedSender R) (events : List (Event R))
      → new_sender F depth now ≡ ok s
      → Counted id (run F events (initial F s))
  run-Counted id depth now s events made =
      let (sent, failures, samples, reported) = run-Agrees id depth now s events made in
      (sent, failures, samples)

  -- Each packet that failed is reported once, in the order of the failures: what was consumed and then
  -- what is pending are the reports of the failed packets.
  pub run-Reported :
      (depth : ℕ) (now : ℤ) (s : PacedSender R) (events : List (Event R))
      → new_sender F depth now ≡ ok s
      → Reported (run F events (initial F s))
  run-Reported depth now s events made = (run-Agrees 0 depth now s events made).3
