-- ===== src/Storage/Memory/Laws.antt =====
-- What `MemoryStorageAdapter` promises: counters by key with a fixed lifetime.
use omni_model.Prelude.{
  ℕ, ◌+◌, ◌*◌, ◌<◌, ◌≤◌, refl, String, ◌≡◌, Option, none, some, arith, eq_iff, eq_refl, ◌==◌, ltb,
  leb, ◌∙◌, ap, Bool-cases, if◌then◌else◌, Option-cases, inl, inr, false,
}
use omni_model.Prelude.Int.{ℤ, pos, ◌+ℤ◌}
use omni_model.Prelude.Number.{JsNumber, int, add, add-zero_left, to_number, to_number-to_text}
use omni_model.Prelude.Dict.{get, get-set, get-delete}
use omni_model.Storage.{StorageAdapter, KeepsCounters}
use omni_model.Storage.Memory.{
  Entry, Memory, expired, read_value, put, remove, add_to, increment, get_counter,
}

-- The number that a key stands for: 0 when no live entry has it.
unfoldable pub live_number : ℕ → Option Entry → JsNumber
live_number now none = int (pos 0)
live_number now (some e) = if expired e now then int (pos 0) else to_number e.value

unfoldable pub counter_of : Memory → String → JsNumber
unfolding live_number
counter_of m key = live_number m.clock (get key m.entries)

pub get_counter-counter_of : (k : String) (m : Memory) → (get_counter k m).0 ≡ counter_of m k
unfolding get_counter counter_of
get_counter-counter_of k m = ground arith

pub counter_of-get_counter :
    (k j : String) (m : Memory) → counter_of (get_counter k m).1 j ≡ counter_of m j
unfolding get_counter counter_of
counter_of-get_counter k j m = ground (arith, get-delete k j m.entries, eq_iff k j)

pub increment-counter_of :
    (k : String) (n : ℤ) (ttl : ℕ) (m : Memory) → (increment k n ttl m).0 ≡ add (counter_of m k) n
unfolding increment counter_of
increment-counter_of k n ttl m = ground (arith, add-zero_left n)

module _ (k j : String) (n : ℤ) (ttl : ℕ) (m : Memory) where
  counter_of-add_to-none :
      0 < ttl → counter_of (add_to k n ttl none m).1 j ≡ (if k == j then int n else counter_of m j)
  unfolding counter_of add_to expired
  counter_of-add_to-none h = simp get-set (ground (arith, to_number-to_text (int n)))

  counter_of-add_to-some :
      (e : Entry)
      → expired e m.clock ≡ false
      → counter_of (add_to k n ttl (some e) m).1 j
        ≡ (if k == j then add (to_number e.value) n else counter_of m j)
  unfolding counter_of add_to expired
  counter_of-add_to-some e h =
      simp get-set (ground (arith, to_number-to_text (add (to_number e.value) n)))

counter_of-delete :
    (k j : String) (m : Memory)
    → counter_of (remove k m) j ≡ (if k == j then int (pos 0) else counter_of m j)
unfolding counter_of remove
counter_of-delete k j m = simp get-delete (ground arith)

counter_of_found :
    (k : String) (m : Memory) (o : Option Entry)
    → get k m.entries ≡ o
    → counter_of m k ≡ live_number m.clock o
unfolding counter_of
counter_of_found k m o h = rw h

pub counter_of-increment :
    (k j : String) (n : ℤ) (ttl : ℕ) (m : Memory)
    → 0 < ttl
    → counter_of (increment k n ttl m).1 j
      ≡ (if k == j then add (counter_of m j) n else counter_of m j)
unfolding increment remove live_number
counter_of-increment k j n ttl m h = elim (Option-cases (get k m.entries)) [
  | inl missing ↦ rw missing (
      counter_of-add_to-none k j n ttl m h
      ∙ ground (arith, add-zero_left n, counter_of_found k m none missing, eq_iff k j))
  | inr (e, found) ↦
      let value = counter_of_found k m (some e) found in
      rw found (elim (Bool-cases (expired e m.clock)) [
        | inl dead ↦ rw dead (
            counter_of-add_to-none k j n ttl (remove k m) h
            ∙ ground (arith, counter_of-delete k j m, add-zero_left n, value, dead, eq_iff k j))
        | inr alive ↦
            rw alive (
              counter_of-add_to-some k j n ttl m e alive ∙ ground (arith, value, alive, eq_iff k j))
      ])
]

-- The adapter's entry points as the interface's, where no call fails.
unfoldable pub memory_get_counter : String → Memory → Option JsNumber × Memory
memory_get_counter k m = let (n, m') = get_counter k m in (some n, m')

unfoldable pub memory_increment : String → ℤ → ℕ → Memory → Option JsNumber × Memory
memory_increment k n ttl m = let (total, m') = increment k n ttl m in (some total, m')

abbrev pub memory_adapter : StorageAdapter
memory_adapter = record {
  State = Memory;
  get_counter = memory_get_counter;
  increment = memory_increment;
}

-- Reads change no counter and answer the number that the key stands for; an increment with a
-- lifetime answers the sum and changes its own key alone, at the time of the call.
pub increment-get_counter :
    (k j : String) (n : ℤ) (ttl : ℕ) (m : Memory)
    → 0 < ttl
    → ((get_counter k m).0 ≡ counter_of m k)
      × (counter_of (get_counter k m).1 j ≡ counter_of m j)
      × ((increment k n ttl m).0 ≡ add (counter_of m k) n)
      × (counter_of (increment k n ttl m).1 j
          ≡ (if k == j then add (counter_of m j) n else counter_of m j))
increment-get_counter k j n ttl m h = (
  get_counter-counter_of k m,
  counter_of-get_counter k j m,
  increment-counter_of k n ttl m,
  counter_of-increment k j n ttl m h,
)

-- The in-memory adapter keeps one number for each key, for as long as the clock stands.
unfoldable pub memory_laws : KeepsCounters memory_adapter
unfolding memory_get_counter memory_increment
memory_laws = record {
  counter = counter_of;
  read_value = λ k m. ap some (get_counter-counter_of k m);
  read_only = counter_of-get_counter;
  added_value = λ k n ttl m h. ap some (increment-counter_of k n ttl m);
  added_only = counter_of-increment;
}

abbrev pub at : ℕ → Memory → Memory
at now m = record m { clock = now }

-- A counter that is made at one time counts until `ttl` seconds later, however often it is
-- incremented meanwhile, and then starts again from 0.
pub counter_lifetime :
    (k : String) (a b : ℤ) (ttl ttl' : ℕ) (now later : ℕ) (m : Memory)
    → get k m.entries ≡ none
    → (increment k b ttl' (at later (increment k a ttl (at now m)).1)).0
      ≡ (if ltb later (now + ttl * 1000) then int (a +ℤ b) else int b)
unfolding increment expired add
counter_lifetime k a b ttl ttl' now later m fresh = rw fresh (
    rw get-set (
      rw eq_refl (elim (Bool-cases (leb (now + ttl * 1000) later)) [
        | inl over ↦ rw over (ground (arith, over))
        | inr open_still ↦ rw open_still (ground (arith, open_still, to_number-to_text (int a)))
      ])))

-- After its lifetime a counter stands for 0 again.
pub counter_runs_out :
    (k : String) (n : ℤ) (ttl now later : ℕ) (m : Memory)
    → get k m.entries ≡ none
    → now + ttl * 1000 ≤ later
    → counter_of (at later (increment k n ttl (at now m)).1) k ≡ int (pos 0)
unfolding increment expired counter_of
counter_runs_out k n ttl now later m fresh late = rw fresh (rw get-set (rw eq_refl (ground arith)))

pub counter_of_missing :
    (k : String) (m : Memory) → get k m.entries ≡ none → counter_of m k ≡ int (pos 0)
unfolding counter_of
counter_of_missing k m h = rw h refl

text_at : ℕ → Option Entry → Option String
text_at now none = none
text_at now (some e) = if expired e now then none else some e.value

read_value-text_at :
    (k : String) (m : Memory) → (read_value k m).0 ≡ text_at m.clock (get k m.entries)
unfolding read_value text_at
read_value-text_at k m = ground arith

-- A value put with a lifetime is read back until the lifetime has passed, and then no more; put
-- without one, it is always read back. Other keys are untouched.
pub read_value-put :
    (k j value : String) (ttl : Option ℕ) (now later : ℕ) (m : Memory)
    → (read_value j (at later (put k value ttl (at now m)))).0 ≡ (
        if k == j
        then elim ttl [
          | none ↦ some value
          | some t ↦ if ltb later (now + t * 1000) then some value else none
        ]
        else (read_value j (at later m)).0)
unfolding put text_at expired
read_value-put k j value none now later m =
    rw (read_value-text_at, read_value-text_at, get-set) (ground arith)
read_value-put k j value (some t) now later m =
    rw (read_value-text_at, read_value-text_at, get-set) (ground arith)
