-- ===== src/Cache/Memory/Unique.antt =====
-- The rows stand under different keys, whatever is done with the cache.
use omni_model.Prelude.{
  ℕ, ◌+◌, ◌-◌, String, ◌&&◌, Option, none, some, List, [], ◌∷◌, leb, Bool-cases, inl, inr,
}
use omni_model.Prelude.Dict.{Dict, get, delete, size, UniqueKeys, UniqueKeys-set, UniqueKeys-delete}
use omni_model.Cache.Memory.{
  Row, MemoryPromptCache, PromptCacheStats, has_expired, judge_row, live, read_entry, put, purge,
  keys, total_bytes, count_row, stats_loop, stats, sweep, evict_loop, evict,
}

-- What is done with a cache: its operations, and time that passes.
pub data Operation (E : Type 0) : Type 0 where
  reads : String → Operation E
  puts : String → E → ℕ → Operation E
  purges counts : Operation E
  evicts : ℕ → ℕ → Operation E
  waits : ℕ → Operation E

module _ {E : Type 0} (byte_size : E → ℕ) where
  abbrev pub step : Operation E → MemoryPromptCache E → MemoryPromptCache E
  step (reads key) cache = (read_entry key cache).1
  step (puts key entry ttl_seconds) cache = put byte_size key entry ttl_seconds cache
  step purges cache = (purge cache).1
  step counts cache = (stats cache).1
  step (evicts max_entries max_bytes) cache = (evict max_entries max_bytes cache).1
  step (waits ms) cache = record cache { clock = cache.clock + ms }

  abbrev pub run : List (Operation E) → MemoryPromptCache E → MemoryPromptCache E
  run [] cache = cache
  run (o ∷ os) cache = run os (step o cache)

module _ {E : Type 0} where
  judge_row-UniqueKeys :
      (key : String) (cache : MemoryPromptCache E) (o : Option (Row E))
      → UniqueKeys cache.rows
      → UniqueKeys (judge_row key cache o).1.rows
  unfolding judge_row has_expired
  judge_row-UniqueKeys key cache none u = u
  judge_row-UniqueKeys key cache (some row) u = elim (Bool-cases (leb row.expires_at cache.clock)) [
    | inl over ↦ rw over (UniqueKeys-delete key cache.rows u)
    | inr alive ↦ rw alive u
  ]

  live-UniqueKeys :
      (key : String) (cache : MemoryPromptCache E)
      → UniqueKeys cache.rows
      → UniqueKeys (live key cache).1.rows
  unfolding live
  live-UniqueKeys key cache u = judge_row-UniqueKeys key cache (get key cache.rows) u

  sweep-UniqueKeys :
      (ks : List String) (cache : MemoryPromptCache E)
      → UniqueKeys cache.rows
      → UniqueKeys (sweep ks cache).1.rows
  unfolding sweep
  sweep-UniqueKeys [] cache u = u
  sweep-UniqueKeys (k ∷ ks) cache u =
      sweep-UniqueKeys ks (live k cache).1 (live-UniqueKeys k cache u)

  stats_loop-UniqueKeys :
      (ks : List String) (counted : PromptCacheStats) (cache : MemoryPromptCache E)
      → UniqueKeys cache.rows
      → UniqueKeys (stats_loop ks counted cache).1.rows
  unfolding stats_loop
  stats_loop-UniqueKeys [] counted cache u = u
  stats_loop-UniqueKeys (k ∷ ks) counted cache u =
      stats_loop-UniqueKeys ks (count_row (live k cache).0 counted) (live k cache).1
        (live-UniqueKeys k cache u)

  evict_loop-UniqueKeys :
      (a b : ℕ) (pending : Dict (Row E)) (bytes : ℕ) (rows : Dict (Row E))
      → UniqueKeys rows
      → UniqueKeys (evict_loop a b pending bytes rows).1
  unfolding evict_loop
  evict_loop-UniqueKeys a b [] bytes rows u = u
  evict_loop-UniqueKeys a b ((key, row) ∷ pending) bytes rows u =
      elim (Bool-cases (leb (size rows) a && leb bytes b)) [
        | inl fits ↦ rw fits u
        | inr full ↦ rw full (
            evict_loop-UniqueKeys a b pending (bytes - row.bytes) (delete key rows)
              (UniqueKeys-delete key rows u))
      ]

  step-UniqueKeys :
      (byte_size : E → ℕ) (o : Operation E) (cache : MemoryPromptCache E)
      → UniqueKeys cache.rows
      → UniqueKeys (step byte_size o cache).rows
  unfolding read_entry put purge stats evict
  step-UniqueKeys byte_size (reads key) cache u = live-UniqueKeys key cache u
  step-UniqueKeys byte_size (puts key entry ttl_seconds) cache u =
      UniqueKeys-set key _ (delete key cache.rows) (UniqueKeys-delete key cache.rows u)
  step-UniqueKeys byte_size purges cache u = tt
  step-UniqueKeys byte_size counts cache u = stats_loop-UniqueKeys (keys cache.rows) _ cache u
  step-UniqueKeys byte_size (evicts a b) cache u =
      let swept = (sweep (keys cache.rows) cache).1.rows in
      evict_loop-UniqueKeys a b swept (total_bytes swept) swept
        (sweep-UniqueKeys (keys cache.rows) cache u)
  step-UniqueKeys byte_size (waits ms) cache u = u

  run-UniqueKeys_from :
      (byte_size : E → ℕ) (os : List (Operation E)) (cache : MemoryPromptCache E)
      → UniqueKeys cache.rows
      → UniqueKeys (run byte_size os cache).rows
  run-UniqueKeys_from byte_size [] cache u = u
  run-UniqueKeys_from byte_size (o ∷ os) cache u =
      run-UniqueKeys_from byte_size os (step byte_size o cache)
        (step-UniqueKeys byte_size o cache u)

-- Whatever is done with a cache that starts empty, no key has two rows.
pub run-UniqueKeys :
    {E : Type 0} (byte_size : E → ℕ) (os : List (Operation E)) (start : ℕ)
    → UniqueKeys (run byte_size os (record { rows = []; clock = start })).rows
run-UniqueKeys byte_size os start =
    run-UniqueKeys_from byte_size os (record { rows = []; clock = start }) tt
