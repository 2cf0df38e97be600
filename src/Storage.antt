-- ===== src/Storage.antt =====
-- The storage interface of packages/core/src/storage/types.ts, as far as the limits use it: counters
-- by key. Every call may fail (a thrown error is `none`) and returns the adapter's next state.
pub mod Memory
use omni_model.Prelude.{ℕ, ◌<◌, String, ◌≡◌, Option, some, ◌==◌, if◌then◌else◌}
use omni_model.Prelude.Int.{ℤ}
use omni_model.Prelude.Number.{JsNumber, add}

pub record StorageAdapter : Type 1 where
  pub State : Type 0
  -- `getCounter(key)`
  pub get_counter : String → State → Option JsNumber × State
  -- `increment(key, amount, ttlSeconds)`
  pub increment : String → ℤ → ℕ → State → Option JsNumber × State

-- What the limits rely on while the backend is up and no counter runs out: each key has a number,
-- reading changes none of them, and an increment adds to its own key alone and returns the sum.
pub record KeepsCounters (store : StorageAdapter) : Type 0 where
  pub counter : store.State → String → JsNumber
  pub read_value : (k : String) (s : store.State) → (store.get_counter k s).0 ≡ some (counter s k)
  pub read_only :
      (k j : String) (s : store.State) → counter (store.get_counter k s).1 j ≡ counter s j
  pub added_value :
      (k : String) (n : ℤ) (ttl : ℕ) (s : store.State)
      → 0 < ttl
      → (store.increment k n ttl s).0 ≡ some (add (counter s k) n)
  pub added_only :
      (k j : String) (n : ℤ) (ttl : ℕ) (s : store.State)
      → 0 < ttl
      → counter (store.increment k n ttl s).1 j
        ≡ (if k == j then add (counter s j) n else counter s j)
