-- ===== src/RateLimit/Concurrency/Expiry.antt =====
-- The slot counter over `MemoryStorageAdapter`: what its lifetime does to a slot that is held longer.
use omni_model.Prelude.{ℕ, ◌+◌, ◌≤◌, ◌<◌, String, ◌≡◌, refl, ap, ◌∙◌, false, none, arith, eq_refl}
use omni_model.Prelude.Int.{pos, negsuc}
use omni_model.Prelude.Number.{int, add, add-zero_left}
use omni_model.Prelude.Dict.{get}
use omni_model.Storage.Memory.{Memory, increment}
use omni_model.Storage.Memory.Laws.{
  memory_adapter, memory_increment, counter_of, at, increment-counter_of, counter_of-increment,
  counter_runs_out, counter_of_missing,
}
use omni_model.RateLimit.Concurrency.{
  counted, granted, entry_of, enter, take_off, release, settle, acquire, slot_ttl_seconds,
}

first_acquire :
    (key : String) (per_user now : ℕ) (m : Memory)
    → get key m.entries ≡ none
    → 0 < per_user
    → acquire memory_adapter key per_user (at now m)
      ≡ (granted (counted false), (increment key (pos 1) slot_ttl_seconds (at now m)).1)
unfolding acquire enter settle entry_of memory_increment
first_acquire key per_user now m fresh room =
    let one : (increment key (pos 1) slot_ttl_seconds (at now m)).0 ≡ int (pos 1) =
      increment-counter_of key (pos 1) slot_ttl_seconds (at now m)
      ∙ ap (λ x. add x (pos 1)) (counter_of_missing key (at now m) fresh)
      ∙ add-zero_left (pos 1) in
    rw one (ground arith)

-- A first request of a user is admitted, and if it is still being served when the counter's fifteen
-- minutes are over, giving its slot back leaves the user's counter at -1.
pub late_release_below_zero :
    (key : String) (per_user now later : ℕ) (m : Memory)
    → get key m.entries ≡ none
    → 0 < per_user
    → now + 900000 ≤ later
    → ((acquire memory_adapter key per_user (at now m)).0 ≡ granted (counted false))
      × (counter_of
            (release memory_adapter key
              (counted false)
              (at later (acquire memory_adapter key per_user (at now m)).1)).1
            key
          ≡ int (negsuc 0))
unfolding release take_off memory_increment
late_release_below_zero key per_user now later m fresh room late =
    rw (first_acquire key per_user now m fresh room) (
      refl,
      rw (counter_of-increment key key (negsuc 0) slot_ttl_seconds _ (omega arith)) (
          rw eq_refl (
            rw (counter_runs_out key (pos 1) slot_ttl_seconds now later m fresh late)
              (add-zero_left (negsuc 0)))),
    )
