-- ===== src/WriteKeys/Cached/Bound.antt =====
-- The cache stays within its bound.
use omni_model.Prelude.{
  ℕ, ◌+◌, ◌-◌, ◌≤◌, ◌<◌, suc, String, Option, none, some, [], ◌∷◌, arith, ltb, Bool-cases, inl, inr,
  eq_refl,
}
use omni_model.Prelude.Dict.{Dict, get, delete, size, size-set-le, size-delete-le}
use omni_model.WriteKeys.{WriteKey}
use omni_model.WriteKeys.Cached.{
  CacheEntry, CachedWriteKeyStore, drop_expired, drop_oldest, make_room, remember, look_up,
  authenticate, created,
}

size-drop_oldest-le : (entries : Dict CacheEntry) → size (drop_oldest entries) ≤ size entries - 1
unfolding drop_oldest delete
size-drop_oldest-le [] = omega arith
size-drop_oldest-le ((h, e) ∷ entries) = rw (eq_refl h) (omega (arith, size-delete-le h entries))

size-drop_expired-le :
    (now : ℕ) (entries : Dict CacheEntry) → size (drop_expired now entries) ≤ size entries
unfolding drop_expired
size-drop_expired-le now [] = omega arith
size-drop_expired-le now ((h, e) ∷ entries) = ground (arith, size-drop_expired-le now entries)

size-make_room-lt :
    (max_entries now : ℕ) (entries : Dict CacheEntry)
    → 1 ≤ max_entries
    → size entries ≤ max_entries
    → size (make_room max_entries now entries) < max_entries
unfolding make_room
size-make_room-lt max_entries now entries one h = ground (
  arith,
  one,
  h,
  size-drop_expired-le now entries,
  size-drop_oldest-le (drop_expired now entries),
)

abbrev pub WithinBound : CachedWriteKeyStore → Type 0
WithinBound store = (1 ≤ store.max_entries) × (size store.entries ≤ store.max_entries)

remember-WithinBound :
    (hash : String) (value : Option WriteKey) (now : ℕ) (store : CachedWriteKeyStore)
    → WithinBound store
    → WithinBound (remember hash value now store)
unfolding remember
remember-WithinBound hash value now store (one, h) = (
  one,
  omega (
    arith,
    size-make_room-lt store.max_entries now store.entries one h,
    size-set-le hash (record { value = value; expires_at = now + store.ttl_ms })
        (make_room store.max_entries now store.entries),
  ),
)

look_up-WithinBound :
    (hash : String) (found : Option WriteKey) (now : ℕ) (store : CachedWriteKeyStore)
    (o : Option CacheEntry)
    → WithinBound store
    → WithinBound (look_up hash found now store o).1
unfolding look_up
look_up-WithinBound hash found now store none h =
    remember-WithinBound hash found now (record store { misses = suc store.misses }) h
look_up-WithinBound hash found now store (some e) h = elim (Bool-cases (ltb now e.expires_at)) [
  | inl alive ↦ rw alive h
  | inr over ↦
      rw over (remember-WithinBound hash found now (record store { misses = suc store.misses }) h)
]

-- A lookup, a miss that is remembered and a newly minted key all keep the cache within its bound,
-- whatever secrets are presented, when the bound allows one entry.
pub authenticate-WithinBound :
    (hash : String → String) (inner : String → Option WriteKey) (now : ℕ) (secret : String)
    (key : WriteKey) (store : CachedWriteKeyStore)
    → WithinBound store
    → WithinBound (authenticate hash inner now secret store).1
      × WithinBound (created hash now secret key store)
unfolding authenticate created
authenticate-WithinBound hash inner now secret key store h = (
  look_up-WithinBound (hash secret) (inner secret) now store (get (hash secret) store.entries) h,
  remember-WithinBound (hash secret) (some key) now store h,
)
