-- ===== src/RateLimit/Concurrency.antt =====
-- `createConcurrencyLimiter` of packages/core/src/ratelimit/concurrency.ts. A slot's `release` is a
-- closure over one flag, so a slot is a value and releasing it returns the slot with its flag set.
pub mod Interleaving
pub mod Expiry
use omni_model.Prelude.{ℕ, String, Bool, true, false, Option, none, some, if◌then◌else◌}
use omni_model.Prelude.Int.{ℤ, pos, negsuc}
use omni_model.Prelude.Number.{JsNumber, above}
use omni_model.Prelude.Text.{◌<>◌}
use omni_model.Facts.{RequestFacts, limit_key_for}
use omni_model.Storage.{StorageAdapter}

abbrev pub slot_ttl_seconds : ℕ
slot_ttl_seconds = 900

unfoldable pub key_for : RequestFacts → String
key_for facts = "rl:conc:" <> limit_key_for facts

pub data Slot : Type 0 where
  -- the slot of a request that storage could not count: its `release` does nothing
  untracked : Slot
  -- a counted slot, with the flag `released`
  counted : Bool → Slot

pub data ConcurrencyDecision : Type 0 where
  granted : Slot → ConcurrencyDecision
  refused : ℕ → ConcurrencyDecision

-- What the first write decides, before the next `await`.
pub data Entry : Type 0 where
  open_entry over_limit within_limit : Entry

unfoldable pub entry_of : ℕ → Option JsNumber → Entry
entry_of per_user none = open_entry
entry_of per_user (some in_flight) = if above in_flight per_user then over_limit else within_limit

module _ (store : StorageAdapter) (key : String) where
  open store use {State, increment}

  -- `storage.increment(key, 1, SLOT_TTL_SECONDS)`
  unfoldable pub enter : ℕ → State → Entry × State
  enter per_user s =
      let (in_flight, s') = increment key (pos 1) slot_ttl_seconds s in
      (entry_of per_user in_flight, s')

  -- `storage.increment(key, -1, SLOT_TTL_SECONDS)`, whose failure is only logged
  unfoldable pub take_off : State → State
  take_off s = (increment key (negsuc 0) slot_ttl_seconds s).1

  -- `give`
  unfoldable pub release : Slot → State → Slot × State
  release untracked s = (untracked, s)
  release (counted true) s = (counted true, s)
  release (counted false) s = (counted true, take_off s)

  unfoldable pub settle : ℕ → Entry → State → ConcurrencyDecision × State
  settle per_user open_entry s = (granted untracked, s)
  settle per_user over_limit s = (refused per_user, (release (counted false) s).1)
  settle per_user within_limit s = (granted (counted false), s)

  unfoldable pub acquire : ℕ → State → ConcurrencyDecision × State
  acquire per_user s = let (entry, s') = enter per_user s in settle per_user entry s'
