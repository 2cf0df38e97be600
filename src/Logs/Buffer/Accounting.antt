-- ===== src/Logs/Buffer/Accounting.antt =====
-- Every entry that the sink of packages/core/src/logs/buffer.ts accepts is accounted for.
use omni_model.Prelude.{
  ℕ, ◌+◌, ◌≤◌, zero, suc, ◌≡◌, refl, sym, subst, ◌∙◌, Bool, true, false, Option, none, some, List,
  [], ◌∷◌, arith, if◌then◌else◌, leb, leb→le, length, is_some, length-append, length-take, take,
  Bool-cases, inl, inr,
}
use omni_model.Logs.Buffer.{
  BufferedRequestLogSink, drain, schedule_flush, clear_timer, make_room, push, drain_or_schedule,
  record_entry, timeout, flush, flush_again, finish, begin, start_waiting, start_round, settle,
  end_round, create,
}
use omni_model.Logs.Buffer.Events.{
  Event, recorded, timed_out, flushed, flushed_again, finished, started, ended, batch_of, step, run,
  taken_by, written_by, lost_by, over, count,
}
use omni_model.Logs.Buffer.Balance.{run-Balances}

module _ {L : Type 0} where
  max_queue-schedule_flush :
      (sink : BufferedRequestLogSink L) → (schedule_flush sink).max_queue ≡ sink.max_queue
  unfolding schedule_flush
  max_queue-schedule_flush sink = ground arith

  max_queue-start_waiting :
      (n : ℕ) (sink : BufferedRequestLogSink L) → (start_waiting n sink).max_queue ≡ sink.max_queue
  unfolding start_waiting begin
  max_queue-start_waiting zero sink = refl
  max_queue-start_waiting (suc n) sink = ground arith

  max_queue-settle :
      (success : Bool) (o : Option (List L)) (sink : BufferedRequestLogSink L)
      → (settle success o sink).max_queue ≡ sink.max_queue
  unfolding settle
  max_queue-settle success none sink = refl
  max_queue-settle true (some batch) sink =
      max_queue-schedule_flush
        (record sink { in_flight = none; written = sink.written + length batch })
  max_queue-settle false (some batch) sink =
      max_queue-schedule_flush
        (record sink { in_flight = none; dropped = sink.dropped + length batch })

  max_queue-drain_or_schedule :
      (sink : BufferedRequestLogSink L) → (drain_or_schedule sink).max_queue ≡ sink.max_queue
  unfolding drain_or_schedule drain
  max_queue-drain_or_schedule sink = ground (arith, max_queue-schedule_flush sink)

  max_queue-step :
      (e : Event L) (sink : BufferedRequestLogSink L) → (step e sink).max_queue ≡ sink.max_queue
  unfolding record_entry push make_room timeout flush flush_again finish start_round end_round drain
      clear_timer
  max_queue-step (recorded entry) sink =
      ground (arith, max_queue-drain_or_schedule (push entry (make_room sink)))
  max_queue-step timed_out sink = ground arith
  max_queue-step flushed sink = refl
  max_queue-step flushed_again sink = ground arith
  max_queue-step finished sink = refl
  max_queue-step started sink = ground (arith, max_queue-start_waiting sink.waiting sink)
  max_queue-step (ended success) sink = max_queue-settle success sink.in_flight sink

  -- The step's entries are counted: as written, and as dropped.
  abbrev Counts : Event L → BufferedRequestLogSink L → Type 0
  Counts e sink =
      ((step e sink).written ≡ sink.written + length (written_by e sink))
      × ((step e sink).dropped ≡ sink.dropped + length (lost_by e sink))

  -- A step that changes neither number.
  SameCounts : BufferedRequestLogSink L → BufferedRequestLogSink L → Type 0
  SameCounts after sink = (after.written ≡ sink.written) × (after.dropped ≡ sink.dropped)

  schedule_flush-SameCounts :
      (sink : BufferedRequestLogSink L) → SameCounts (schedule_flush sink) sink
  unfolding schedule_flush SameCounts
  schedule_flush-SameCounts sink = ground arith

  drain_or_schedule-SameCounts :
      (sink : BufferedRequestLogSink L) → SameCounts (drain_or_schedule sink) sink
  unfolding drain_or_schedule drain SameCounts
  drain_or_schedule-SameCounts sink = elim (Bool-cases (leb sink.batch_size (length sink.queue))) [
    | inl full ↦ rw full (refl, refl)
    | inr few ↦ rw few (schedule_flush-SameCounts sink)
  ]

  start_waiting-SameCounts :
      (n : ℕ) (sink : BufferedRequestLogSink L) → SameCounts (start_waiting n sink) sink
  unfolding start_waiting begin SameCounts
  start_waiting-SameCounts zero sink = (refl, refl)
  start_waiting-SameCounts (suc n) sink = ground arith

  dropped-make_room :
      (sink : BufferedRequestLogSink L)
      → 1 ≤ sink.max_queue
      → (make_room sink).dropped
        ≡ sink.dropped
          + length (if leb sink.max_queue (length sink.queue) then take 1 sink.queue else [])
  unfolding make_room
  dropped-make_room sink one = elim (Bool-cases (leb sink.max_queue (length sink.queue))) [
    | inl full ↦ rw full (
        omega
          (arith, one, leb→le sink.max_queue (length sink.queue) full, length-take 1 sink.queue))
    | inr few ↦ rw few (omega arith)
  ]

  written-make_room : (sink : BufferedRequestLogSink L) → (make_room sink).written ≡ sink.written
  unfolding make_room
  written-make_room sink = ground arith

  counts_unless :
      (b : Bool) (sink after : BufferedRequestLogSink L) (lost : List L)
      → after.written ≡ sink.written
      → after.dropped ≡ sink.dropped + length lost
      → ((if b then sink else after).written ≡ sink.written + 0)
        × ((if b then sink else after).dropped ≡ sink.dropped + length (if b then [] else lost))
  counts_unless true sink after lost h k = (omega arith, omega arith)
  counts_unless false sink after lost h k = (omega (arith, h), k)

  recorded-Counts :
      (entry : L) (sink : BufferedRequestLogSink L)
      → 1 ≤ sink.max_queue
      → Counts (recorded entry) sink
  unfolding record_entry push SameCounts
  recorded-Counts entry sink one =
      let kept = drain_or_schedule-SameCounts (push entry (make_room sink)) in
      counts_unless sink.closed sink (drain_or_schedule (push entry (make_room sink)))
        (if leb sink.max_queue (length sink.queue) then take 1 sink.queue else [])
        (kept.0 ∙ written-make_room sink) (kept.1 ∙ dropped-make_room sink one)

  ended-Counts :
      (success : Bool) (o : Option (List L)) (sink : BufferedRequestLogSink L)
      → sink.in_flight ≡ o
      → Counts (ended success) sink
  unfolding end_round settle SameCounts
  ended-Counts true none sink h = rw h (omega arith, omega arith)
  ended-Counts false none sink h = rw h (omega arith, omega arith)
  ended-Counts true (some batch) sink h =
      let after = record sink { in_flight = none; written = sink.written + length batch } in
      let kept = schedule_flush-SameCounts after in rw h (kept.0, omega (arith, kept.1))
  ended-Counts false (some batch) sink h =
      let after = record sink { in_flight = none; dropped = sink.dropped + length batch } in
      let kept = schedule_flush-SameCounts after in rw h (omega (arith, kept.0), kept.1)

  step-Counts : (e : Event L) (sink : BufferedRequestLogSink L) → 1 ≤ sink.max_queue → Counts e sink
  unfolding timeout flush flush_again finish start_round drain clear_timer SameCounts
  step-Counts (recorded entry) sink one = recorded-Counts entry sink one
  step-Counts timed_out sink one = ground arith
  step-Counts flushed sink one = (omega arith, omega arith)
  step-Counts flushed_again sink one = ground arith
  step-Counts finished sink one = (omega arith, omega arith)
  step-Counts started sink one =
      let kept = start_waiting-SameCounts sink.waiting sink in
      elim (Bool-cases (is_some sink.in_flight)) [
        | inl busy ↦ rw busy (omega arith, omega arith)
        | inr idle ↦ rw idle (omega (arith, kept.0), omega (arith, kept.1))
      ]
  step-Counts (ended success) sink one = ended-Counts success sink.in_flight sink refl

  run-Counts :
      (es : List (Event L)) (sink : BufferedRequestLogSink L)
      → 1 ≤ sink.max_queue
      → ((run es sink).written ≡ sink.written + length (over written_by es sink))
        × ((run es sink).dropped ≡ sink.dropped + length (over lost_by es sink))
  run-Counts [] sink one = (omega arith, omega arith)
  run-Counts (e ∷ es) sink one =
      let later =
        run-Counts es (step e sink) (subst (λ m. 1 ≤ m) (sym (max_queue-step e sink)) one) in
      let first = step-Counts e sink one in
      (
        omega (
          arith,
          first.0,
          later.0,
          length-append (written_by e sink) (over written_by es (step e sink)),
        ),
        omega (
          arith,
          first.1,
          later.1,
          length-append (lost_by e sink) (over lost_by es (step e sink)),
        ),
      )

  -- Whatever happens and in whatever order, when the queue may hold one entry: the entries that the
  -- sink took in are, each as often as it was taken in, those that the writer has written, those that
  -- were lost, those with the writer and those queued, whichever entries a test picks out; and
  -- `written` and `dropped` are the numbers of those written and lost.
  pub accounted-run :
      (batch_size max_queue : ℕ) (es : List (Event L))
      → 1 ≤ max_queue
      → let sink = run es (create batch_size max_queue) in
        ((test : L → Bool)
          → count test (over taken_by es (create batch_size max_queue))
            ≡ count test (over written_by es (create batch_size max_queue))
              + count test (over lost_by es (create batch_size max_queue))
              + count test (batch_of sink.in_flight)
              + count test sink.queue)
        × (sink.written ≡ length (over written_by es (create batch_size max_queue)))
        × (sink.dropped ≡ length (over lost_by es (create batch_size max_queue)))
  unfolding create
  accounted-run batch_size max_queue es one =
      let counted = run-Counts es (create batch_size max_queue) one in
      (
        λ test. omega (arith, run-Balances test es (create batch_size max_queue)),
        omega (arith, counted.0),
        omega (arith, counted.1),
      )
