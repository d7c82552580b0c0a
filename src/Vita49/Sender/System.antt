-- ===== src/Vita49/Sender/System.antt =====
-- The threads of a `PacedSender`: the calls that are made, the thread of `run` and one caller of
-- `stop`, which take turns at the critical sections in any order.
use fers.Base.{
  ℕ, zero, suc, Bool, true, false, not, ◌&&◌, List, [], ◌∷◌, ◌++◌, Result, ok, err, if◌then◌else◌,
}
use fers.Base.Int.{ℤ}
use fers.Floats.{Floats}
use fers.Vita49.Packetizer.{SerializedPacket}
use fers.Vita49.Sender.{
  PacedSender, Client, Worker, absent, looping, recorded, exited, sending, enqueue, enqueue_batch,
  wake, run_turn, record_send, consume_dropped_datagrams, start, begin_stop, end_stop,
  DroppedDatagram,
}

-- What happens next: a call, a caller or the thread that goes on, or the datagram sender's outcome.
pub data Event (R : Type 0) : Type 0 where
  started : R → ℤ → Event R
  enqueue_called : SerializedPacket R → Event R
  batch_called : List (SerializedPacket R) → Event R
  client_woke : ℕ → Event R
  worker_turned : ℤ → ℤ → Event R
  send_returned : Bool → Event R
  worker_relocked : Event R
  drops_consumed : Event R
  stop_called thread_joined : Event R

-- `clients` are the calls made so far, `joining` is a call of `stop` that waits for the thread, and
-- `sent`, `failed` and `consumed` record what the datagram sender was given and what was reported.
pub record System (R : Type 0) : Type 0 where
  pub sender : PacedSender R
  pub worker : Worker R
  pub clients : List (Client R)
  pub joining : Bool
  pub sent : List (SerializedPacket R × ℤ)
  pub failed : List (SerializedPacket R)
  pub consumed : List DroppedDatagram

module _ (F : Floats) where
  open F use {R}

  abbrev pub initial : PacedSender R → System R
  initial s = record {
    sender = s;
    worker = absent;
    clients = [];
    joining = false;
    sent = [];
    failed = [];
    consumed = [];
  }

  -- A call that throws changes nothing.
  abbrev pub called : Result (PacedSender R × Client R) → System R → System R
  called (ok (s, c)) sys = record sys { sender = s; clients = c ∷ sys.clients }
  called (err e) sys = sys

  unfoldable pub wake_at : ℕ → List (Client R) → PacedSender R → PacedSender R × List (Client R)
  wake_at i [] s = (s, [])
  wake_at zero (c ∷ clients) s = let (s', c') = wake F c s in (s', c' ∷ clients)
  wake_at (suc i) (c ∷ clients) s = let (s', clients') = wake_at i clients s in (s', c ∷ clients')

  -- The datagram sender returns or throws, and the thread records it.
  unfoldable pub after_send : Bool → Worker R → System R → System R
  after_send true (sending p now) sys = record sys {
    sender = record_send F true p now sys.sender;
    worker = recorded;
    sent = (p, now) ∷ sys.sent;
  }
  after_send false (sending p now) sys = record sys {
    sender = record_send F false p now sys.sender;
    worker = recorded;
    failed = p ∷ sys.failed;
  }
  after_send success absent sys = sys
  after_send success looping sys = sys
  after_send success recorded sys = sys
  after_send success exited sys = sys

  -- An event that cannot happen changes nothing.
  unfoldable pub step : Event R → System R → System R
  step (started epoch now) sys =
      let (s, made) = start F epoch now sys.sender in
      record sys { sender = s; worker = if made then looping else sys.worker }
  step (enqueue_called p) sys = called (enqueue F p sys.sender) sys
  step (batch_called packets) sys = called (enqueue_batch F packets sys.sender) sys
  step (client_woke i) sys =
      let (s, clients) = wake_at i sys.clients sys.sender in
      record sys { sender = s; clients = clients }
  step (worker_turned tested now) sys = elim sys.worker [
    | looping ↦
        let (s, worker) = run_turn F tested now sys.sender in
        record sys { sender = s; worker = worker }
    | _ ↦ sys
  ]
  step (send_returned success) sys = after_send success sys.worker sys
  step worker_relocked sys = elim sys.worker [
    | recorded ↦ record sys {
      sender = record sys.sender { send_in_progress = false };
      worker = looping;
    }
    | _ ↦ sys
  ]
  step drops_consumed sys =
      let (s, dropped) = consume_dropped_datagrams F sys.sender in
      record sys { sender = s; consumed = sys.consumed ++ dropped }
  step stop_called sys =
      if sys.sender.started && not sys.joining
      then record sys { sender = begin_stop F sys.sender; joining = true }
      else sys
  step thread_joined sys = elim sys.worker [
    | exited ↦
        if sys.joining
        then record sys { sender = end_stop F sys.sender; worker = absent; joining = false }
        else sys
    | _ ↦ sys
  ]

  -- The events of a history, the latest first.
  unfoldable pub run : List (Event R) → System R → System R
  run [] sys = sys
  run (e ∷ events) sys = step e (run events sys)
