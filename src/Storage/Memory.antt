-- ===== src/Storage/Memory.antt =====
-- `MemoryStorageAdapter` of packages/core/src/storage/memory.ts. The state holds the entries and the
-- reading of the injected clock, in milliseconds; one call reads one time.
pub mod Laws
pub mod Lifetimes
use omni_model.Prelude.{ℕ, ◌+◌, ◌*◌, String, Bool, false, Option, none, some, leb, if◌then◌else◌}
use omni_model.Prelude.Int.{ℤ, pos}
use omni_model.Prelude.Number.{JsNumber, int, add, to_text, to_number}
use omni_model.Prelude.Dict.{Dict, get, set, delete}

pub record Entry : Type 0 where
  pub value : String
  pub expires_at : Option ℕ

pub record Memory : Type 0 where
  pub entries : Dict Entry
  pub clock : ℕ

-- `entry.expiresAt !== null && entry.expiresAt <= this.now()`
unfoldable pub expired : Entry → ℕ → Bool
expired e now = elim e.expires_at [ none ↦ false | some t ↦ leb t now ]

drop_dead : String → Option Entry → Memory → Option Entry × Memory
drop_dead key none m = (none, m)
drop_dead key (some e) m =
    if expired e m.clock then (none, record m { entries = delete key m.entries }) else (some e, m)

unfoldable pub live : String → Memory → Option Entry × Memory
unfolding drop_dead
live key m = drop_dead key (get key m.entries) m

value_of : Option Entry → Option String
value_of none = none
value_of (some e) = some e.value

unfoldable pub read_value : String → Memory → Option String × Memory
unfolding live value_of
read_value key m = let (found, m') = live key m in (value_of found, m')

lifetime : ℕ → Option ℕ → Option ℕ
lifetime now none = none
lifetime now (some ttl) = some (now + ttl * 1000)

unfoldable pub put : String → String → Option ℕ → Memory → Memory
unfolding lifetime
put key value ttl_seconds m = record m {
  entries = set key (record { value = value; expires_at = lifetime m.clock ttl_seconds }) m.entries;
}

unfoldable pub remove : String → Memory → Memory
remove key m = record m { entries = delete key m.entries }

-- `entry.value = String(next)` keeps the expiry that the entry was made with.
add_to : String → ℤ → ℕ → Option Entry → Memory → JsNumber × Memory
add_to key amount ttl none m = (
  int amount,
  record m {
    entries =
        set key (record { value = to_text (int amount); expires_at = some (m.clock + ttl * 1000) })
          m.entries;
  },
)
add_to key amount ttl (some e) m =
    let next = add (to_number e.value) amount in
    (next, record m { entries = set key (record e { value = to_text next }) m.entries })

unfoldable pub increment : String → ℤ → ℕ → Memory → JsNumber × Memory
unfolding live add_to
increment key amount ttl m = let (found, m') = live key m in add_to key amount ttl found m'

number_of : Option Entry → JsNumber
number_of none = int (pos 0)
number_of (some e) = to_number e.value

unfoldable pub get_counter : String → Memory → JsNumber × Memory
unfolding live number_of
get_counter key m = let (found, m') = live key m in (number_of found, m')
