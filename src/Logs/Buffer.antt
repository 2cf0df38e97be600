-- ===== src/Logs/Buffer.antt =====
-- packages/core/src/logs/buffer.ts: the sink that writes request logs in batches. `drain` puts one
-- more round at the end of the promise chain `draining`; a round takes its batch when it starts and
-- settles when the writer answers. So the state counts the rounds that wait and holds the batch
-- that is with the writer; what the writer answers is an argument of the step.
pub mod Events
pub mod Balance
pub mod Accounting
pub mod Flush
use omni_model.Prelude.{
  ℕ, ◌+◌, zero, suc, Bool, true, false, ◌||◌, ◌&&◌, not, Option, none, some, List, [], ◌∷◌, ◌++◌,
  if◌then◌else◌, leb, eqb, take, drop, length, is_some,
}

pub record BufferedRequestLogSink (L : Type 0) : Type 0 where
  pub batch_size : ℕ
  pub max_queue : ℕ
  pub dropped : ℕ
  pub written : ℕ
  pub queue : List L
  -- a flush is scheduled
  pub timer : Bool
  pub closed : Bool
  -- the rounds of `draining` that have not started
  pub waiting : ℕ
  -- the batch of the round that has started
  pub in_flight : Option (List L)

module _ {L : Type 0} where
  drain : BufferedRequestLogSink L → BufferedRequestLogSink L
  drain sink = record sink { waiting = suc sink.waiting }

  schedule_flush : BufferedRequestLogSink L → BufferedRequestLogSink L
  schedule_flush sink =
      if sink.timer || eqb (length sink.queue) 0 then sink else record sink { timer = true }

  clear_timer : BufferedRequestLogSink L → BufferedRequestLogSink L
  clear_timer sink = record sink { timer = false }

  -- A full queue loses its oldest entry.
  make_room : BufferedRequestLogSink L → BufferedRequestLogSink L
  make_room sink =
      if leb sink.max_queue (length sink.queue)
      then record sink { queue = drop 1 sink.queue; dropped = suc sink.dropped }
      else sink

  push : L → BufferedRequestLogSink L → BufferedRequestLogSink L
  push entry sink = record sink { queue = sink.queue ++ entry ∷ [] }

  drain_or_schedule : BufferedRequestLogSink L → BufferedRequestLogSink L
  unfolding drain schedule_flush
  drain_or_schedule sink =
      if leb sink.batch_size (length sink.queue) then drain sink else schedule_flush sink

  unfoldable pub record_entry : L → BufferedRequestLogSink L → BufferedRequestLogSink L
  unfolding make_room push drain_or_schedule
  record_entry entry sink =
      if sink.closed then sink else drain_or_schedule (push entry (make_room sink))

  -- The timer fires.
  unfoldable pub timeout : BufferedRequestLogSink L → BufferedRequestLogSink L
  unfolding drain
  timeout sink = if sink.timer then drain (record sink { timer = false }) else sink

  -- `flush` up to its first `await`.
  unfoldable pub flush : BufferedRequestLogSink L → BufferedRequestLogSink L
  unfolding drain clear_timer
  flush sink = drain (clear_timer sink)

  -- `flush` after its first `await`.
  unfoldable pub flush_again : BufferedRequestLogSink L → BufferedRequestLogSink L
  unfolding drain
  flush_again sink = if eqb (length sink.queue) 0 then sink else drain sink

  -- `close` after its flush.
  unfoldable pub finish : BufferedRequestLogSink L → BufferedRequestLogSink L
  unfolding clear_timer
  finish sink = clear_timer (record sink { closed = true })

  begin : BufferedRequestLogSink L → BufferedRequestLogSink L
  begin sink = if eqb (length sink.queue) 0 then sink else record sink {
    queue = drop sink.batch_size sink.queue;
    in_flight = some (take sink.batch_size sink.queue);
  }

  start_waiting : ℕ → BufferedRequestLogSink L → BufferedRequestLogSink L
  unfolding begin
  start_waiting zero sink = sink
  start_waiting (suc n) sink = begin (record sink { waiting = n })

  -- A waiting round starts when none is under way.
  unfoldable pub start_round : BufferedRequestLogSink L → BufferedRequestLogSink L
  unfolding start_waiting
  start_round sink = if is_some sink.in_flight then sink else start_waiting sink.waiting sink

  -- The round's batch is written, or lost.
  settle : Bool → Option (List L) → BufferedRequestLogSink L → BufferedRequestLogSink L
  unfolding schedule_flush
  settle success none sink = sink
  settle success (some batch) sink = schedule_flush (
      if success
      then record sink { in_flight = none; written = sink.written + length batch }
      else record sink { in_flight = none; dropped = sink.dropped + length batch })

  unfoldable pub end_round : Bool → BufferedRequestLogSink L → BufferedRequestLogSink L
  unfolding settle
  end_round success sink = settle success sink.in_flight sink

  -- A sink as it is made.
  unfoldable pub create : ℕ → ℕ → BufferedRequestLogSink L
  create batch_size max_queue = record {
    batch_size = batch_size;
    max_queue = max_queue;
    dropped = 0;
    written = 0;
    queue = [];
    timer = false;
    closed = false;
    waiting = 0;
    in_flight = none;
  }
