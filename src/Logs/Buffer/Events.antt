-- ===== src/Logs/Buffer/Events.antt =====
-- The steps of the sink of packages/core/src/logs/buffer.ts, and the entries that each takes in,
-- writes and loses.
use omni_model.Prelude.{
  ℕ, ◌+◌, Bool, true, false, Option, none, some, List, [], ◌∷◌, ◌++◌, if◌then◌else◌, leb, length,
  take,
}
use omni_model.Logs.Buffer.{
  BufferedRequestLogSink, record_entry, timeout, flush, flush_again, finish, start_round, end_round,
}

-- One step of the sink.
pub data Event (L : Type 0) : Type 0 where
  recorded : L → Event L
  timed_out flushed flushed_again finished started : Event L
  ended : Bool → Event L

module _ {L : Type 0} where
  abbrev pub batch_of : Option (List L) → List L
  batch_of none = []
  batch_of (some batch) = batch

  abbrev pub step : Event L → BufferedRequestLogSink L → BufferedRequestLogSink L
  step (recorded entry) sink = record_entry entry sink
  step timed_out sink = timeout sink
  step flushed sink = flush sink
  step flushed_again sink = flush_again sink
  step finished sink = finish sink
  step started sink = start_round sink
  step (ended success) sink = end_round success sink

  abbrev pub run : List (Event L) → BufferedRequestLogSink L → BufferedRequestLogSink L
  run [] sink = sink
  run (e ∷ es) sink = run es (step e sink)

  -- The entries that a step takes in.
  abbrev pub taken_by : Event L → BufferedRequestLogSink L → List L
  taken_by (recorded entry) sink = if sink.closed then [] else entry ∷ []
  taken_by e sink = []

  -- The entries that the writer says, in a step, to have written.
  abbrev pub written_by : Event L → BufferedRequestLogSink L → List L
  written_by (ended true) sink = batch_of sink.in_flight
  written_by e sink = []

  -- The entries that a step loses: the oldest of a full queue, or a batch that was not written.
  abbrev pub lost_by : Event L → BufferedRequestLogSink L → List L
  lost_by (recorded entry) sink =
      if sink.closed
      then []
      else if leb sink.max_queue (length sink.queue)
      then take 1 sink.queue
      else []
  lost_by (ended false) sink = batch_of sink.in_flight
  lost_by e sink = []

  abbrev pub over :
      (Event L → BufferedRequestLogSink L → List L)
      → List (Event L)
      → BufferedRequestLogSink L
      → List L
  over f [] sink = []
  over f (e ∷ es) sink = f e sink ++ over f es (step e sink)

  -- How many entries of the list pass the test.
  abbrev pub count : (L → Bool) → List L → ℕ
  count test [] = 0
  count test (x ∷ xs) = (if test x then 1 else 0) + count test xs
