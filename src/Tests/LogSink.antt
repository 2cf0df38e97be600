-- ===== src/Tests/LogSink.antt =====
-- A log sink with batches of two and room for three.
use omni_model.Prelude.{ℕ, ◌+◌, ◌++◌, String, ◌≡◌, Bool, true, none, List, [], ◌∷◌, arith, length}
use omni_model.Logs.Buffer.{flush, end_round, create}
use omni_model.Logs.Buffer.Events.{
  Event, recorded, started, ended, run, batch_of, over, taken_by, written_by, lost_by, count,
}
use omni_model.Logs.Buffer.Accounting.{accounted-run}
use omni_model.Logs.Buffer.Flush.{rounds, flush_empties}

abbrev events : List (Event String)
events =
    recorded "a"
    ∷ recorded "b"
    ∷ started
    ∷ recorded "c"
    ∷ recorded "d"
    ∷ recorded "e"
    ∷ recorded "f"
    ∷ []

abbrev answers : ℕ → Bool
answers n = true

flush_empties_example :
    let flushing = flush (end_round true (run events (create 2 3))) in
    let after = rounds flushing.waiting answers flushing in
    (length after.queue ≡ 0) × (after.in_flight ≡ none)
flush_empties_example = flush_empties 2 3 events true answers (omega arith)

accounted-run_example :
    let sink = run (events ++ ended true ∷ []) (create 2 3) in
    ((test : String → Bool)
      → count test (over taken_by (events ++ ended true ∷ []) (create 2 3))
        ≡ count test (over written_by (events ++ ended true ∷ []) (create 2 3))
          + count test (over lost_by (events ++ ended true ∷ []) (create 2 3))
          + count test (batch_of sink.in_flight)
          + count test sink.queue)
    × (sink.written ≡ length (over written_by (events ++ ended true ∷ []) (create 2 3)))
    × (sink.dropped ≡ length (over lost_by (events ++ ended true ∷ []) (create 2 3)))
accounted-run_example = accounted-run 2 3 (events ++ ended true ∷ []) (omega arith)
