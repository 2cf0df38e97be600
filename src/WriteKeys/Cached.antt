-- ===== src/WriteKeys/Cached.antt =====
-- packages/core/src/writekeys/cache.ts: the cache in front of a store. The hash of a secret and the
-- store's answers are parameters; `authenticate` is one step, at the time that it reads first, as a
-- lookup that nothing overlaps, and is also given by its two parts, before and after the answer of the
-- store.
pub mod Bound
pub mod Staleness
pub mod Eviction
use omni_model.Prelude.{
  ℕ, ◌+◌, suc, String, Bool, true, false, Option, none, some, List, [], ◌∷◌, ◌==◌, if◌then◌else◌,
  leb, ltb, map,
}
use omni_model.Prelude.Dict.{Dict, get, set, delete, size}
use omni_model.WriteKeys.{WriteKey}

pub record CacheEntry : Type 0 where
  -- none stands for a miss that is remembered
  pub value : Option WriteKey
  pub expires_at : ℕ

pub record CachedWriteKeyStore : Type 0 where
  pub ttl_ms : ℕ
  pub max_entries : ℕ
  pub entries : Dict CacheEntry
  pub hits : ℕ
  pub misses : ℕ

-- The loop of `remember` over the entries: the expired ones go.
unfoldable pub drop_expired : ℕ → Dict CacheEntry → Dict CacheEntry
drop_expired now [] = []
drop_expired now ((h, e) ∷ entries) =
    let rest = drop_expired now entries in if leb e.expires_at now then rest else (h, e) ∷ rest

drop_oldest : Dict CacheEntry → Dict CacheEntry
drop_oldest [] = []
drop_oldest ((h, e) ∷ entries) = delete h ((h, e) ∷ entries)

-- What `remember` does before it stores.
unfoldable pub make_room : ℕ → ℕ → Dict CacheEntry → Dict CacheEntry
unfolding drop_oldest
make_room max_entries now entries =
    let fresh = drop_expired now entries in
    if leb max_entries (size entries)
    then if leb max_entries (size fresh) then drop_oldest fresh else fresh
    else entries

unfoldable pub remember : String → Option WriteKey → ℕ → CachedWriteKeyStore → CachedWriteKeyStore
remember hash value now store = record store {
  entries =
      set hash (record { value = value; expires_at = now + store.ttl_ms })
        (make_room store.max_entries now store.entries);
}

-- `authenticate`, with the store's answer and what the cache has under the hash.
unfoldable pub look_up :
    String
    → Option WriteKey
    → ℕ
    → CachedWriteKeyStore
    → Option CacheEntry
    → Option WriteKey × CachedWriteKeyStore
look_up hash found now store none =
    (found, remember hash found now (record store { misses = suc store.misses }))
look_up hash found now store (some e) =
    if ltb now e.expires_at
    then (e.value, record store { hits = suc store.hits })
    else (found, remember hash found now (record store { misses = suc store.misses }))

-- `authenticate` of a secret at a time, where the store behind would give an answer for the secret.
unfoldable pub authenticate :
    (String → String)
    → (String → Option WriteKey)
    → ℕ
    → String
    → CachedWriteKeyStore
    → Option WriteKey × CachedWriteKeyStore
unfolding look_up
authenticate hash inner now secret store =
    look_up (hash secret) (inner secret) now store (get (hash secret) store.entries)

hit_or_miss :
    ℕ → CachedWriteKeyStore → Option CacheEntry → Option (Option WriteKey) × CachedWriteKeyStore
hit_or_miss now store none = (none, record store { misses = suc store.misses })
hit_or_miss now store (some e) =
    if ltb now e.expires_at
    then (some e.value, record store { hits = suc store.hits })
    else (none, record store { misses = suc store.misses })

-- `authenticate` up to its `await` of the store behind: the remembered answer, if there is one.
unfoldable pub begin_lookup :
    String → ℕ → CachedWriteKeyStore → Option (Option WriteKey) × CachedWriteKeyStore
unfolding hit_or_miss
begin_lookup hash now store = hit_or_miss now store (get hash store.entries)

-- The rest of `authenticate`, when the store has answered a miss.
unfoldable pub finish_lookup :
    String
    → Option WriteKey
    → ℕ
    → Option (Option WriteKey) × CachedWriteKeyStore
    → Option WriteKey × CachedWriteKeyStore
finish_lookup hash found now (none, store) = (found, remember hash found now store)
finish_lookup hash found now (some value, store) = (value, store)

-- What `create` does with the key that the store behind minted.
unfoldable pub created :
    (String → String) → ℕ → String → WriteKey → CachedWriteKeyStore → CachedWriteKeyStore
created hash now secret key store = remember (hash secret) (some key) now store

-- `value?.id === id`
unfoldable pub has_id : String → Option WriteKey → Bool
has_id id none = false
has_id id (some key) = key.id == id

unfoldable pub evict_by_id : String → Dict CacheEntry → Dict CacheEntry
unfolding has_id
evict_by_id id [] = []
evict_by_id id ((h, e) ∷ entries) =
    let rest = evict_by_id id entries in if has_id id e.value then rest else (h, e) ∷ rest

-- What `revoke` does with the answer of the store behind.
unfoldable pub revoked : String → Bool → CachedWriteKeyStore → CachedWriteKeyStore
revoked id moved store =
    if moved then record store { entries = evict_by_id id store.entries } else store

unfoldable pub clear : CachedWriteKeyStore → CachedWriteKeyStore
clear store = record store { entries = [] }
