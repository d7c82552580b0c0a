-- ===== src/Examples/Pacing.antt =====
-- The paced sender at a concrete history.
use fers.Base.{ℕ, ◌+◌, ◌≤◌, ◌≡◌, refl, true, false, List, [], ◌∷◌, ok}
use fers.Base.Int.{pos}
use fers.Vita49.Sender.{
  PacedSender, new_sender, insert, enqueue_loop, enqueue, run_turn, record_dropped, record_send,
  start, begin_stop, due_time, exited, queued_or_sending_count, add_counter, make_dropped_datagram,
}
use fers.Vita49.Sender.Order.{Ordered, total}
use fers.Vita49.Sender.System.{
  Event, started, enqueue_called, worker_turned, send_returned, worker_relocked, stop_called,
  initial, after_send, step, run,
}
use fers.Vita49.Sender.Deadlines.{run-Ordered}
use fers.Vita49.Sender.Lifecycle.{Life, run-Life}
use fers.Vita49.Sender.Conservation.{
  Conserved, accepted_by, sent_weight, run-Conserved, run-drained,
}
use fers.Vita49.Sender.Counters.{Counted, Reported, run-Counted, run-Reported}
use fers.Vita49.Sender.Bound.{singly, run-queued_or_sending_count}
use fers.Examples.Fixed.{numbers, fixed-asymmetric, fixed-transitive}
use fers.Examples.Data.{datagram}

abbrev new : PacedSender ℕ
new = record {
  queue_depth = 2;
  queue = [];
  late_data_packets = [];
  late_context_packets = [];
  sent_packets = [];
  send_failures = [];
  dropped_data_packets = [];
  dropped_context_packets = [];
  dropped_samples = [];
  pending_dropped_datagrams = [];
  steady_epoch = pos 0;
  simulation_epoch_time = 0;
  started = false;
  stopping = false;
  send_in_progress = false;
  priority_overflow_in_progress = false;
}

made : new_sender numbers 2 (pos 0) ≡ ok new
unfolding new_sender
made = refl

-- Two packets are enqueued out of order, and `stop` is called. The first is sent, the second fails,
-- and the thread ends. The latest event comes first.
abbrev history : List (Event ℕ)
history =
    worker_turned (pos 9_000_000_000) (pos 9_000_000_000)
    ∷ worker_relocked
    ∷ send_returned false
    ∷ worker_turned (pos 5_000_000_000) (pos 5_000_000_001)
    ∷ worker_relocked
    ∷ send_returned true
    ∷ worker_turned (pos 3_000_000_000) (pos 3_000_000_000)
    ∷ stop_called
    ∷ enqueue_called (datagram 3)
    ∷ enqueue_called (datagram 5)
    ∷ started 0 (pos 0)
    ∷ []

ends : (run numbers history (initial numbers new)).worker ≡ exited
unfolding run step start enqueue enqueue_loop insert run_turn due_time after_send record_send
    record_dropped add_counter begin_stop queued_or_sending_count make_dropped_datagram
ends = refl

run-Ordered_example : Ordered numbers (run numbers history (initial numbers new)).sender.queue
run-Ordered_example =
    run-Ordered numbers fixed-asymmetric fixed-transitive 2 (pos 0) new history made

run-Life_example : Life (run numbers history (initial numbers new))
run-Life_example = run-Life numbers 2 (pos 0) new history made

run-Conserved_example : Conserved (λ p. p.sample_count) (run numbers history (initial numbers new))
run-Conserved_example = run-Conserved numbers (λ p. p.sample_count) 2 (pos 0) new history made

run-drained_example :
    total (accepted_by (λ p. p.sample_count)) (run numbers history (initial numbers new)).clients
    ≡ sent_weight (λ p. p.sample_count) (run numbers history (initial numbers new)).sent
      + total (λ p. p.sample_count) (run numbers history (initial numbers new)).failed
run-drained_example = run-drained numbers (λ p. p.sample_count) 2 (pos 0) new history made ends

run-Counted_example : Counted 99 (run numbers history (initial numbers new))
run-Counted_example = run-Counted numbers 99 2 (pos 0) new history made

run-Reported_example : Reported numbers (run numbers history (initial numbers new))
run-Reported_example = run-Reported numbers 2 (pos 0) new history made

run-queued_or_sending_count_example :
    queued_or_sending_count numbers (run numbers history (initial numbers new)).sender ≤ 3
unfolding singly
run-queued_or_sending_count_example =
    run-queued_or_sending_count numbers 2 (pos 0) new history made refl

abbrev waiting : PacedSender ℕ
waiting = record new { queue = datagram 3 ∷ datagram 5 ∷ []; started = true }
