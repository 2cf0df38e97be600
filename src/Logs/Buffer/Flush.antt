-- ===== src/Logs/Buffer/Flush.antt =====
-- A flush leaves nothing behind.
use omni_model.Prelude.{
  ℕ, ◌+◌, ◌≤◌, ◌<◌, zero, suc, ◌≡◌, refl, subst, Bool, true, false, ◌||◌, Option, none, some, List,
  [], ◌∷◌, ◌++◌, arith, if◌then◌else◌, leb, eqb, take, drop, length, is_some, length-append,
  length-drop, Bool-cases, inl, inr,
}
use omni_model.Logs.Buffer.{
  BufferedRequestLogSink, drain, schedule_flush, clear_timer, make_room, push, drain_or_schedule,
  record_entry, timeout, flush, flush_again, finish, begin, start_waiting, start_round, settle,
  end_round, create,
}
use omni_model.Logs.Buffer.Events.{
  Event, step, run, recorded, timed_out, flushed, flushed_again, finished, started, ended,
}

-- How many entries a number of rounds can take.
capacity : ℕ → ℕ → ℕ
capacity batch zero = 0
capacity batch (suc n) = batch + capacity batch n

leb→gt : (a b : ℕ) → leb a b ≡ false → b < a
leb→gt a b h = ground arith

eqb→zero : (a : ℕ) → eqb a 0 ≡ true → a ≡ 0
eqb→zero a h = ground arith

module _ {L : Type 0} where
  -- The waiting rounds take all but a partial batch of the queue.
  abbrev Covered : BufferedRequestLogSink L → Type 0
  Covered sink =
      (1 ≤ sink.batch_size)
      × (length sink.queue < sink.batch_size + capacity sink.batch_size sink.waiting)

  Covered-drain : (sink : BufferedRequestLogSink L) → Covered sink → Covered (drain sink)
  unfolding drain capacity
  Covered-drain sink (one, few) = (one, omega (arith, few))

  Covered-schedule_flush :
      (sink : BufferedRequestLogSink L) → Covered sink → Covered (schedule_flush sink)
  unfolding schedule_flush
  Covered-schedule_flush sink c = elim (Bool-cases (sink.timer || eqb (length sink.queue) 0)) [
    | inl idle ↦ rw idle c
    | inr fresh ↦ rw fresh c
  ]

  Covered-make_room : (sink : BufferedRequestLogSink L) → Covered sink → Covered (make_room sink)
  unfolding make_room
  Covered-make_room sink (one, few) = elim (Bool-cases (leb sink.max_queue (length sink.queue))) [
    | inl full ↦ rw full (one, omega (arith, few, length-drop 1 sink.queue))
    | inr room ↦ rw room (one, few)
  ]

  -- One more entry: a full batch gets its round.
  Covered-push :
      (entry : L) (sink : BufferedRequestLogSink L)
      → Covered sink
      → Covered (drain_or_schedule (push entry sink))
  unfolding drain_or_schedule push drain capacity
  Covered-push entry sink (one, few) =
      elim (Bool-cases (leb sink.batch_size (length (sink.queue ++ entry ∷ [])))) [
        | inl full ↦ rw full (one, omega (arith, few, length-append sink.queue (entry ∷ [])))
        | inr small ↦ rw small (
            Covered-schedule_flush (push entry sink) (
              one,
              omega (arith, leb→gt sink.batch_size (length (sink.queue ++ entry ∷ [])) small),
            ))
      ]

  Covered-start_waiting :
      (n : ℕ) (sink : BufferedRequestLogSink L)
      → sink.waiting ≡ n
      → Covered sink
      → Covered (start_waiting n sink)
  unfolding start_waiting begin capacity
  Covered-start_waiting zero sink same c = c
  Covered-start_waiting (suc n) sink same (one, few) =
      let covered =
        subst (λ w. length sink.queue < sink.batch_size + capacity sink.batch_size w) same few in
      elim (Bool-cases (eqb (length sink.queue) 0)) [
        | inl empty ↦ rw empty (one, omega (arith, one, eqb→zero (length sink.queue) empty))
        | inr more ↦ rw more (one, omega (arith, covered, length-drop sink.batch_size sink.queue))
      ]

  Covered-settle :
      (success : Bool) (o : Option (List L)) (sink : BufferedRequestLogSink L)
      → Covered sink
      → Covered (settle success o sink)
  unfolding settle
  Covered-settle success none sink c = c
  Covered-settle true (some batch) sink c =
      Covered-schedule_flush
        (record sink { in_flight = none; written = sink.written + length batch }) c
  Covered-settle false (some batch) sink c =
      Covered-schedule_flush
        (record sink { in_flight = none; dropped = sink.dropped + length batch }) c

  Covered-if :
      (b : Bool) (first second : BufferedRequestLogSink L)
      → Covered first
      → Covered second
      → Covered (if b then first else second)
  Covered-if true first second c d = c
  Covered-if false first second c d = d

  Covered-step :
      (e : Event L) (sink : BufferedRequestLogSink L) → Covered sink → Covered (step e sink)
  unfolding record_entry timeout flush flush_again finish start_round end_round clear_timer
  Covered-step (recorded entry) sink c =
      Covered-if sink.closed sink _ c
        (Covered-push entry (make_room sink) (Covered-make_room sink c))
  Covered-step timed_out sink c =
      Covered-if sink.timer _ sink (Covered-drain (record sink { timer = false }) c) c
  Covered-step flushed sink c = Covered-drain (record sink { timer = false }) c
  Covered-step flushed_again sink c =
      Covered-if (eqb (length sink.queue) 0) sink (drain sink) c (Covered-drain sink c)
  Covered-step finished sink c = c
  Covered-step started sink c =
      Covered-if (is_some sink.in_flight) sink _ c (Covered-start_waiting sink.waiting sink refl c)
  Covered-step (ended success) sink c = Covered-settle success sink.in_flight sink c

  Covered-run :
      (es : List (Event L)) (sink : BufferedRequestLogSink L) → Covered sink → Covered (run es sink)
  Covered-run [] sink c = c
  Covered-run (e ∷ es) sink c = Covered-run es (step e sink) (Covered-step e sink c)

  -- The waiting rounds one after the other, with what the writer answers to each.
  abbrev pub rounds : ℕ → (ℕ → Bool) → BufferedRequestLogSink L → BufferedRequestLogSink L
  rounds zero answers sink = sink
  rounds (suc n) answers sink = rounds n answers (end_round (answers n) (start_round sink))

  -- Nothing is under way, and the waiting rounds take the whole queue.
  record IsReady (n : ℕ) (sink : BufferedRequestLogSink L) : Type 0 where
    idle : sink.in_flight ≡ none
    waits : sink.waiting ≡ n
    enough : length sink.queue ≤ capacity sink.batch_size n

  IsReady-schedule_flush :
      (n : ℕ) (sink : BufferedRequestLogSink L) → IsReady n sink → IsReady n (schedule_flush sink)
  unfolding schedule_flush
  IsReady-schedule_flush n sink r = elim (Bool-cases (sink.timer || eqb (length sink.queue) 0)) [
    | inl scheduled ↦ rw scheduled r
    | inr fresh ↦ rw fresh (record { idle = r.idle; waits = r.waits; enough = r.enough })
  ]

  IsReady-settle :
      (success : Bool) (n : ℕ) (batch : List L) (sink : BufferedRequestLogSink L)
      → sink.waiting ≡ n
      → length sink.queue ≤ capacity sink.batch_size n
      → IsReady n (settle success (some batch) sink)
  unfolding settle
  IsReady-settle true n batch sink waits enough =
      IsReady-schedule_flush n
        (record sink { in_flight = none; written = sink.written + length batch })
        (record { idle = refl; waits = waits; enough = enough })
  IsReady-settle false n batch sink waits enough =
      IsReady-schedule_flush n
        (record sink { in_flight = none; dropped = sink.dropped + length batch })
        (record { idle = refl; waits = waits; enough = enough })

  IsReady-settle-none :
      (success : Bool) (n : ℕ) (o : Option (List L)) (sink : BufferedRequestLogSink L)
      → o ≡ none
      → IsReady n sink
      → IsReady n (settle success o sink)
  unfolding settle
  IsReady-settle-none success n none sink h r = r
  IsReady-settle-none success n (some batch) sink h r = cc

  IsReady-begin :
      (success : Bool) (n : ℕ) (sink : BufferedRequestLogSink L)
      → sink.in_flight ≡ none
      → sink.waiting ≡ n
      → length sink.queue ≤ capacity sink.batch_size (suc n)
      → IsReady n (end_round success (begin sink))
  unfolding begin end_round capacity
  IsReady-begin success n sink idle waits enough = elim (Bool-cases (eqb (length sink.queue) 0)) [
    | inl empty ↦ rw empty (
        IsReady-settle-none success n sink.in_flight sink idle (record {
          idle = idle;
          waits = waits;
          enough = omega (arith, eqb→zero (length sink.queue) empty);
        }))
    | inr more ↦ rw more (
        IsReady-settle success n (take sink.batch_size sink.queue)
          (record sink {
            queue = drop sink.batch_size sink.queue;
            in_flight = some (take sink.batch_size sink.queue);
          })
          waits (omega (arith, enough, length-drop sink.batch_size sink.queue)))
  ]

  IsReady-round :
      (success : Bool) (n : ℕ) (sink : BufferedRequestLogSink L)
      → IsReady (suc n) sink
      → IsReady n (end_round success (start_round sink))
  unfolding start_round start_waiting
  IsReady-round success n sink r = rw r.idle (
      rw r.waits (
        IsReady-begin success n (record sink { waiting = n; in_flight = none }) refl refl r.enough))

  rounds-IsReady :
      (n : ℕ) (answers : ℕ → Bool) (sink : BufferedRequestLogSink L)
      → IsReady n sink
      → IsReady 0 (rounds n answers sink)
  rounds-IsReady zero answers sink r = r
  rounds-IsReady (suc n) answers sink r =
      rounds-IsReady n answers (end_round (answers n) (start_round sink))
        (IsReady-round (answers n) n sink r)

  in_flight-schedule_flush :
      (sink : BufferedRequestLogSink L) → (schedule_flush sink).in_flight ≡ sink.in_flight
  unfolding schedule_flush
  in_flight-schedule_flush sink = elim (Bool-cases (sink.timer || eqb (length sink.queue) 0)) [
    | inl scheduled ↦ rw scheduled
    | inr fresh ↦ rw fresh
  ]

  in_flight-settle :
      (success : Bool) (o : Option (List L)) (sink : BufferedRequestLogSink L)
      → sink.in_flight ≡ o
      → (settle success o sink).in_flight ≡ none
  unfolding settle
  in_flight-settle success none sink h = h
  in_flight-settle true (some batch) sink h =
      in_flight-schedule_flush
        (record sink { in_flight = none; written = sink.written + length batch })
  in_flight-settle false (some batch) sink h =
      in_flight-schedule_flush
        (record sink { in_flight = none; dropped = sink.dropped + length batch })

  -- After a flush the waiting rounds take the whole queue.
  IsReady-flush :
      (sink : BufferedRequestLogSink L)
      → sink.in_flight ≡ none
      → Covered sink
      → IsReady (flush sink).waiting (flush sink)
  unfolding flush drain clear_timer capacity
  IsReady-flush sink idle (one, few) = record {
    idle = idle;
    waits = refl;
    enough = omega (arith, few);
  }

  -- However the sink was used, once the round under way has settled, a flush and its waiting rounds
  -- leave no entry queued and none with the writer, whatever the writer answers to each, when a
  -- batch holds an entry.
  pub flush_empties :
      (batch_size max_queue : ℕ) (es : List (Event L)) (last : Bool) (answers : ℕ → Bool)
      → 1 ≤ batch_size
      → let flushing = flush (end_round last (run es (create batch_size max_queue))) in
        let after = rounds flushing.waiting answers flushing in
        (length after.queue ≡ 0) × (after.in_flight ≡ none)
  unfolding create end_round capacity
  flush_empties batch_size max_queue es last answers one =
      let before = run es (create batch_size max_queue) in
      let settled = settle last before.in_flight before in
      let covered =
        Covered-settle last before.in_flight before
          (Covered-run es (create batch_size max_queue) (one, omega (arith, one))) in
      let ready =
        rounds-IsReady (flush settled).waiting answers (flush settled)
          (IsReady-flush settled (in_flight-settle last before.in_flight before refl) covered) in
      (omega (arith, ready.enough), ready.idle)
