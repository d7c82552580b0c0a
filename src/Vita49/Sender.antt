-- ===== src/Vita49/Sender.antt =====
-- `PacedSender` of packages/libfers/src/serial/vita49/paced_sender.h and .cpp: the queue of datagrams
-- in the order of their deadlines, and the critical sections that its threads run. A call that waits
-- on the condition variable stops there: its `Client` says where, and `wake` is what it does when it
-- has the mutex again. The steady clock is an argument, in nanoseconds.
pub mod Order
pub mod System
pub mod Deadlines
pub mod Lifecycle
pub mod Conservation
pub mod Bound
pub mod Counters
use fers.Base.{
  ℕ, ◌+◌, ◌^◌, ◌%◌, ◌*◌, Bool, true, false, not, ◌&&◌, ◌||◌, List, [], ◌∷◌, ◌++◌, Option, none,
  some, Result, ok, err, ◌>>=◌, ◌>>◌, throw_if, invalid_argument, logic_error, ltb, leb, ◌==◌,
  if◌then◌else◌, length,
}
use fers.Base.Int.{ℤ, pos, ◌+ℤ◌, ltb_ℤ}
use fers.Floats.{Floats}
use fers.Vita49.Packetizer.{SerializedPacket}

pub record DroppedDatagram : Type 0 where
  pub stream_id : ℕ
  pub sample_count : ℕ
  pub data_packet : Bool
  pub context_packet : Bool

-- The field `dropped` is never set by the code, and is left out.
pub record EnqueueResult : Type 0 where
  pub enqueued : Bool

-- An `unordered_map` from stream numbers to 64-bit counters.
abbrev pub Counters : Type 0
Counters = List (ℕ × ℕ)

unfoldable pub counter : ℕ → Counters → ℕ
counter id [] = 0
counter id ((i, n) ∷ m) = if i == id then n else counter id m

-- `m[id] += n`.
unfoldable pub add_counter : ℕ → ℕ → Counters → Counters
add_counter id n [] = (id, n % 2 ^ 64) ∷ []
add_counter id n ((i, k) ∷ m) =
    if i == id then (i, (k + n) % 2 ^ 64) ∷ m else (i, k) ∷ add_counter id n m

pub record PacedSender (R : Type 0) : Type 0 where
  pub queue_depth : ℕ
  pub queue : List (SerializedPacket R)
  pub late_data_packets : Counters
  pub late_context_packets : Counters
  pub sent_packets : Counters
  pub send_failures : Counters
  pub dropped_data_packets : Counters
  pub dropped_context_packets : Counters
  pub dropped_samples : Counters
  pub pending_dropped_datagrams : List DroppedDatagram
  pub steady_epoch : ℤ
  pub simulation_epoch_time : R
  pub started : Bool
  pub stopping : Bool
  pub send_in_progress : Bool
  pub priority_overflow_in_progress : Bool

-- Where a call of `enqueue` or `enqueueBatch` is: it waits for space, it waits after an insertion, or
-- it has returned.
pub data Client (R : Type 0) : Type 0 where
  enqueuing overflowing : SerializedPacket R → Client R
  batching : List (SerializedPacket R) → Client R
  answered : SerializedPacket R → EnqueueResult → Client R
  batch_answered : List (SerializedPacket R) → Bool → Client R

-- Where the thread of `run` is.
pub data Worker (R : Type 0) : Type 0 where
  absent looping recorded exited : Worker R
  sending : SerializedPacket R → ℤ → Worker R

abbrev pub accepted : EnqueueResult
accepted = record { enqueued = true }

abbrev pub refused : EnqueueResult
refused = record { enqueued = false }

module _ (F : Floats) where
  open F use {R, double}

  -- The constructor, given a datagram sender.
  unfoldable pub new_sender : ℕ → ℤ → Result (PacedSender R)
  new_sender queue_depth now = do
    throw_if (queue_depth == 0) invalid_argument
    ok (record {
      queue_depth = queue_depth;
      queue = [];
      late_data_packets = [];
      late_context_packets = [];
      sent_packets = [];
      send_failures = [];
      dropped_data_packets = [];
      dropped_context_packets = [];
      dropped_samples = [];
      pending_dropped_datagrams = [];
      steady_epoch = now;
      simulation_epoch_time = double.of_ℕ 0;
      started = false;
      stopping = false;
      send_in_progress = false;
      priority_overflow_in_progress = false;
    })

  -- `queuedOrSendingCount`.
  unfoldable pub queued_or_sending_count : PacedSender R → ℕ
  queued_or_sending_count s = length s.queue + (if s.send_in_progress then 1 else 0)

  -- `insertByDeadlineUnlocked`: before the first packet that is due later. The library's binary search
  -- finds this place, since the queue is in order.
  unfoldable pub insert : SerializedPacket R → List (SerializedPacket R) → List (SerializedPacket R)
  insert p [] = p ∷ []
  insert p (q ∷ queue) =
      if double.lt p.first_sample_time q.first_sample_time
      then p ∷ q ∷ queue
      else q ∷ insert p queue

  abbrev pub insert_packet : SerializedPacket R → PacedSender R → PacedSender R
  insert_packet p s = record s { queue = insert p s.queue }

  unfoldable pub insert_all :
      List (SerializedPacket R) → List (SerializedPacket R) → List (SerializedPacket R)
  insert_all [] queue = queue
  insert_all (p ∷ packets) queue = insert_all packets (insert p queue)

  -- `packet.first_sample_time < _queue.back().first_sample_time`, false of an empty queue.
  unfoldable pub precedes_latest : SerializedPacket R → List (SerializedPacket R) → Bool
  precedes_latest p [] = false
  precedes_latest p (q ∷ []) = double.lt p.first_sample_time q.first_sample_time
  precedes_latest p (q ∷ r ∷ queue) = precedes_latest p (r ∷ queue)

  -- The condition that a call waits for after an insertion.
  abbrev pub room : PacedSender R → Bool
  room s = s.stopping || leb (queued_or_sending_count s) s.queue_depth

  -- The end of `enqueue` after an insertion out of turn.
  unfoldable pub leave_overflow : SerializedPacket R → PacedSender R → PacedSender R × Client R
  leave_overflow p s =
      if room s
      then (record s { priority_overflow_in_progress = false }, answered p accepted)
      else (s, overflowing p)

  unfoldable pub leave_batch : List (SerializedPacket R) → PacedSender R → PacedSender R × Client R
  leave_batch packets s = if room s then (s, batch_answered packets true) else (s, batching packets)

  -- The loop of `enqueue` from its test to its first wait, or to the end of the call.
  unfoldable pub enqueue_loop : SerializedPacket R → PacedSender R → PacedSender R × Client R
  enqueue_loop p s =
      if leb s.queue_depth (queued_or_sending_count s)
      then if not s.priority_overflow_in_progress && precedes_latest p s.queue
        then leave_overflow p (insert_packet p (record s { priority_overflow_in_progress = true }))
        else (s, enqueuing p)
      else (insert_packet p s, answered p accepted)

  unfoldable pub enqueue : SerializedPacket R → PacedSender R → Result (PacedSender R × Client R)
  enqueue p s = do
    throw_if (not s.started) logic_error
    ok (if s.stopping then (s, answered p refused) else enqueue_loop p s)

  -- `enqueueBatch`.
  unfoldable pub enqueue_batch :
      List (SerializedPacket R) → PacedSender R → Result (PacedSender R × Client R)
  enqueue_batch [] s = ok (s, batch_answered [] true)
  enqueue_batch (p ∷ packets) s = do
    throw_if (not s.started) logic_error
    ok (
        if s.stopping
        then (s, batch_answered (p ∷ packets) false)
        else leave_batch (p ∷ packets) (record s { queue = insert_all (p ∷ packets) s.queue }))

  -- A call that waits has the mutex again.
  unfoldable pub wake : Client R → PacedSender R → PacedSender R × Client R
  wake (enqueuing p) s = if s.stopping then (s, answered p refused) else enqueue_loop p s
  wake (overflowing p) s = leave_overflow p s
  wake (batching packets) s = leave_batch packets s
  wake (answered p result) s = (s, answered p result)
  wake (batch_answered packets result) s = (s, batch_answered packets result)

  -- `dueTime`.
  unfoldable pub due_time : SerializedPacket R → PacedSender R → ℤ
  due_time p s =
      let seconds = double.sub p.first_sample_time s.simulation_epoch_time in
      s.steady_epoch +ℤ double.to_ℤ (double.mul seconds (double.of_ℕ 1_000_000_000))

  -- One turn of the loop of `run`, which holds the mutex, at one reading of the clock to test and a
  -- later one to send. A turn that waits loops again.
  unfoldable pub run_turn : ℤ → ℤ → PacedSender R → PacedSender R × Worker R
  run_turn tested now s = elim s.queue [
    | [] ↦ (s, if s.stopping then exited else looping)
    | p ∷ queue ↦
        if ltb_ℤ tested (due_time p s)
        then (s, looping)
        else (record s { queue = queue; send_in_progress = true }, sending p now)
  ]

  abbrev pub is_dropped_data : SerializedPacket R → Bool
  is_dropped_data p = p.data_packet || (not p.context_packet && ltb 0 p.sample_count)

  -- `recordDroppedUnlocked`.
  unfoldable pub record_dropped : SerializedPacket R → PacedSender R → PacedSender R
  record_dropped p s =
      if is_dropped_data p
      then record s {
        dropped_data_packets = add_counter p.stream_id 1 s.dropped_data_packets;
        dropped_samples = add_counter p.stream_id p.sample_count s.dropped_samples;
      }
      else if p.context_packet
      then record s {
        dropped_context_packets = add_counter p.stream_id 1 s.dropped_context_packets;
      }
      else s

  unfoldable pub make_dropped_datagram : SerializedPacket R → DroppedDatagram
  make_dropped_datagram p = record {
    stream_id = p.stream_id;
    sample_count = p.sample_count;
    data_packet = p.data_packet;
    context_packet = p.context_packet;
  }

  -- `now > due + 1ms`.
  abbrev pub is_late : SerializedPacket R → ℤ → PacedSender R → Bool
  is_late p now s = ltb_ℤ (due_time p s +ℤ pos 1_000_000) now

  -- `sendOneUnlocked` after the call of the datagram sender, which succeeded or threw.
  unfoldable pub record_send : Bool → SerializedPacket R → ℤ → PacedSender R → PacedSender R
  record_send false p now s =
      let dropped =
        record_dropped p (record s { send_failures = add_counter p.stream_id 1 s.send_failures }) in
      record dropped {
        pending_dropped_datagrams =
            dropped.pending_dropped_datagrams ++ (make_dropped_datagram p ∷ []);
      }
  record_send true p now s =
      let sent = record s { sent_packets = add_counter p.stream_id 1 s.sent_packets } in
      if is_late p now s
      then if p.context_packet
        then record sent { late_context_packets = add_counter p.stream_id 1 s.late_context_packets }
        else record sent { late_data_packets = add_counter p.stream_id 1 s.late_data_packets }
      else sent

  -- `consumeDroppedDatagrams`.
  unfoldable pub consume_dropped_datagrams : PacedSender R → PacedSender R × List DroppedDatagram
  consume_dropped_datagrams s =
      (record s { pending_dropped_datagrams = [] }, s.pending_dropped_datagrams)

  -- `start`, which makes the thread when the result's flag says so.
  unfoldable pub start : R → ℤ → PacedSender R → PacedSender R × Bool
  start simulation_epoch_time now s = if s.started then (s, false) else (
    record s {
      simulation_epoch_time = simulation_epoch_time;
      steady_epoch = now;
      stopping = false;
      started = true;
    },
    true,
  )

  -- The condition that `flush` waits for.
  unfoldable pub is_flushed : PacedSender R → Bool
  is_flushed s = length s.queue == 0 && not s.send_in_progress

  -- The first critical section of `stop`; the last one, when the thread has been joined.
  unfoldable pub begin_stop : PacedSender R → PacedSender R
  begin_stop s = record s { stopping = true }

  unfoldable pub end_stop : PacedSender R → PacedSender R
  end_stop s = record s { started = false; stopping = false; send_in_progress = false }
