-- ===== src/Logs/Buffer/Balance.antt =====
-- No step of the sink of packages/core/src/logs/buffer.ts loses or doubles an entry unseen.
use omni_model.Prelude.{
  ℕ, ◌+◌, zero, suc, ◌≡◌, refl, Bool, true, false, ◌||◌, Option, none, some, List, [], ◌∷◌, ◌++◌,
  arith, if◌then◌else◌, leb, eqb, length, is_some, take, drop, Bool-cases, inl, inr,
}
use omni_model.Logs.Buffer.{
  BufferedRequestLogSink, drain, schedule_flush, clear_timer, make_room, push, drain_or_schedule,
  record_entry, timeout, flush, flush_again, finish, begin, start_waiting, start_round, settle,
  end_round,
}
use omni_model.Logs.Buffer.Events.{
  Event, recorded, timed_out, flushed, flushed_again, finished, started, ended, batch_of, step, run,
  taken_by, written_by, lost_by, over, count,
}

module _ {L : Type 0} where
  pub count-append :
      (test : L → Bool) (xs ys : List L) → count test (xs ++ ys) ≡ count test xs + count test ys
  count-append test [] ys = omega arith
  count-append test (x ∷ xs) ys = omega (arith, count-append test xs ys)

  pub count-take :
      (test : L → Bool) (n : ℕ) (xs : List L)
      → count test (take n xs) + count test (drop n xs) ≡ count test xs
  count-take test zero xs = omega arith
  count-take test (suc n) [] = omega arith
  count-take test (suc n) (x ∷ xs) = omega (arith, count-take test n xs)

  pub is_none : (o : Option (List L)) → is_some o ≡ false → o ≡ none
  is_none none h = refl
  is_none (some batch) h = cc

  module _ (test : L → Bool) where
    -- The entries in the sink: with the writer, or queued.
    abbrev pub held : BufferedRequestLogSink L → ℕ
    held sink = count test (batch_of sink.in_flight) + count test sink.queue

    held-schedule_flush : (sink : BufferedRequestLogSink L) → held (schedule_flush sink) ≡ held sink
    unfolding schedule_flush
    held-schedule_flush sink = elim (Bool-cases (sink.timer || eqb (length sink.queue) 0)) [
      | inl idle ↦ rw idle
      | inr fresh ↦ rw fresh
    ]

    held-drain_or_schedule :
        (sink : BufferedRequestLogSink L) → held (drain_or_schedule sink) ≡ held sink
    unfolding drain_or_schedule drain
    held-drain_or_schedule sink = elim (Bool-cases (leb sink.batch_size (length sink.queue))) [
      | inl full ↦ rw full
      | inr few ↦ rw few (held-schedule_flush sink)
    ]

    held-make_room :
        (sink : BufferedRequestLogSink L)
        → held (make_room sink)
            + count test (if leb sink.max_queue (length sink.queue) then take 1 sink.queue else [])
          ≡ held sink
    unfolding make_room
    held-make_room sink = elim (Bool-cases (leb sink.max_queue (length sink.queue))) [
      | inl full ↦ rw full (omega (arith, count-take test 1 sink.queue))
      | inr few ↦ rw few (omega arith)
    ]

    -- What a step leaves, with what it wrote and lost, is what there was, with what it took in.
    abbrev Balances : Event L → BufferedRequestLogSink L → Type 0
    Balances e sink =
        held (step e sink) + count test (written_by e sink) + count test (lost_by e sink)
        ≡ held sink + count test (taken_by e sink)

    balances_unless :
        (b : Bool) (sink after : BufferedRequestLogSink L) (lost taken : List L)
        → held after + count test lost ≡ held sink + count test taken
        → held (if b then sink else after) + 0 + count test (if b then [] else lost)
          ≡ held sink + count test (if b then [] else taken)
    balances_unless true sink after lost taken h = omega arith
    balances_unless false sink after lost taken h = omega (arith, h)

    recorded-Balances :
        (entry : L) (sink : BufferedRequestLogSink L) → Balances (recorded entry) sink
    unfolding record_entry push
    recorded-Balances entry sink = balances_unless sink.closed sink _ _ (entry ∷ []) (
        omega (
          arith,
          held-drain_or_schedule (push entry (make_room sink)),
          count-append test (make_room sink).queue (entry ∷ []),
          held-make_room sink,
        ))

    held-begin :
        (sink : BufferedRequestLogSink L) → sink.in_flight ≡ none → held (begin sink) ≡ held sink
    unfolding begin
    held-begin sink idle = elim (Bool-cases (eqb (length sink.queue) 0)) [
      | inl empty ↦ rw empty
      | inr full ↦ rw full (rw idle (omega (arith, count-take test sink.batch_size sink.queue)))
    ]

    held-start_waiting :
        (n : ℕ) (sink : BufferedRequestLogSink L)
        → sink.in_flight ≡ none
        → held (start_waiting n sink) ≡ held sink
    unfolding start_waiting
    held-start_waiting zero sink idle = refl
    held-start_waiting (suc n) sink idle = held-begin (record sink { waiting = n }) idle

    held-settle :
        (success : Bool) (o : Option (List L)) (sink : BufferedRequestLogSink L)
        → sink.in_flight ≡ o
        → held (settle success o sink) + count test (batch_of o) ≡ held sink
    unfolding settle
    held-settle success none sink h = omega arith
    held-settle true (some batch) sink h = rw h (
        omega (
          arith,
          held-schedule_flush
              (record sink { in_flight = none; written = sink.written + length batch }),
        ))
    held-settle false (some batch) sink h = rw h (
        omega (
          arith,
          held-schedule_flush
              (record sink { in_flight = none; dropped = sink.dropped + length batch }),
        ))

    step-Balances : (e : Event L) (sink : BufferedRequestLogSink L) → Balances e sink
    unfolding timeout flush flush_again finish start_round end_round drain clear_timer
    step-Balances (recorded entry) sink = recorded-Balances entry sink
    step-Balances timed_out sink = elim (Bool-cases sink.timer) [
      | inl set ↦ rw set (omega arith)
      | inr clear ↦ rw clear (omega arith)
    ]
    step-Balances flushed sink = omega arith
    step-Balances flushed_again sink = elim (Bool-cases (eqb (length sink.queue) 0)) [
      | inl empty ↦ rw empty (omega arith)
      | inr more ↦ rw more (omega arith)
    ]
    step-Balances finished sink = omega arith
    step-Balances started sink = elim (Bool-cases (is_some sink.in_flight)) [
      | inl busy ↦ rw busy (omega arith)
      | inr idle ↦
          rw idle
            (omega (arith, held-start_waiting sink.waiting sink (is_none sink.in_flight idle)))
    ]
    step-Balances (ended true) sink = omega (arith, held-settle true sink.in_flight sink refl)
    step-Balances (ended false) sink = omega (arith, held-settle false sink.in_flight sink refl)

    pub run-Balances :
        (es : List (Event L)) (sink : BufferedRequestLogSink L)
        → held (run es sink)
            + count test (over written_by es sink)
            + count test (over lost_by es sink)
          ≡ held sink + count test (over taken_by es sink)
    run-Balances [] sink = omega arith
    run-Balances (e ∷ es) sink = omega (
      arith,
      step-Balances e sink,
      run-Balances es (step e sink),
      count-append test (written_by e sink) (over written_by es (step e sink)),
      count-append test (lost_by e sink) (over lost_by es (step e sink)),
      count-append test (taken_by e sink) (over taken_by es (step e sink)),
    )
