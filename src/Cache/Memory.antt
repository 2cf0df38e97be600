-- ===== src/Cache/Memory.antt =====
-- packages/core/src/cache/memory.ts: the in-process prompt cache. A cached response is a parameter,
-- with the number of bytes that its JSON takes; times are milliseconds.
pub mod Expiry
pub mod Sweep
pub mod Evict
pub mod Unique
use omni_model.Prelude.{
  ℕ, ◌+◌, ◌-◌, ◌*◌, String, Bool, ◌&&◌, Option, none, some, List, [], ◌∷◌, map, if◌then◌else◌, leb,
}
use omni_model.Prelude.Dict.{Dict, get, set, delete, size}
use Prim.Native.Nat.{min}

pub record Row (E : Type 0) : Type 0 where
  pub entry : E
  pub stored_at : ℕ
  pub expires_at : ℕ
  pub bytes : ℕ

pub record MemoryPromptCache (E : Type 0) : Type 0 where
  pub rows : Dict (Row E)
  -- what `now()` answers
  pub clock : ℕ

pub record PromptCacheStats : Type 0 where
  pub entries : ℕ
  pub oldest_at : Option ℕ
  pub bytes : ℕ

module _ {E : Type 0} where
  unfoldable pub has_expired : ℕ → Row E → Bool
  has_expired now row = leb row.expires_at now

  -- What `live` answers for what the map has under a key.
  unfoldable pub judge_row :
      String → MemoryPromptCache E → Option (Row E) → Option (Row E) × MemoryPromptCache E
  unfolding has_expired
  judge_row key cache none = (none, cache)
  judge_row key cache (some row) =
      if has_expired cache.clock row
      then (none, record cache { rows = delete key cache.rows })
      else (some row, cache)

  -- The row of a key; one that has expired is deleted.
  unfoldable pub live : String → MemoryPromptCache E → Option (Row E) × MemoryPromptCache E
  unfolding judge_row
  live key cache = judge_row key cache (get key cache.rows)

  unfoldable pub read_entry : String → MemoryPromptCache E → Option E × MemoryPromptCache E
  unfolding live
  read_entry key cache =
      let (row, after) = live key cache in (elim row [ none ↦ none | some r ↦ some r.entry ], after)

  -- `put`, with the size of the entry's JSON.
  unfoldable pub put : (E → ℕ) → String → E → ℕ → MemoryPromptCache E → MemoryPromptCache E
  put byte_size key entry ttl_seconds cache = record cache {
    rows =
        set key
          (record {
            entry = entry;
            stored_at = cache.clock;
            expires_at = cache.clock + ttl_seconds * 1000;
            bytes = byte_size entry;
          })
          (delete key cache.rows);
  }

  unfoldable pub purge : MemoryPromptCache E → ℕ × MemoryPromptCache E
  purge cache = (size cache.rows, record cache { rows = [] })

  abbrev pub keys : Dict (Row E) → List String
  keys [] = []
  keys ((k, row) ∷ rows) = k ∷ keys rows

  abbrev pub total_bytes : Dict (Row E) → ℕ
  total_bytes [] = 0
  total_bytes ((k, row) ∷ rows) = row.bytes + total_bytes rows

  count_row : Option (Row E) → PromptCacheStats → PromptCacheStats
  count_row none stats = stats
  count_row (some row) stats = record {
    entries = stats.entries + 1;
    oldest_at = elim stats.oldest_at [
      | none ↦ some row.stored_at
      | some oldest ↦ some (min oldest row.stored_at)
    ];
    bytes = stats.bytes + row.bytes;
  }

  -- The loop of `stats` over the keys.
  stats_loop :
      List String → PromptCacheStats → MemoryPromptCache E → PromptCacheStats × MemoryPromptCache E
  unfolding count_row live
  stats_loop [] stats cache = (stats, cache)
  stats_loop (key ∷ later) stats cache =
      let (row, after) = live key cache in stats_loop later (count_row row stats) after

  unfoldable pub stats : MemoryPromptCache E → PromptCacheStats × MemoryPromptCache E
  unfolding stats_loop
  stats cache =
      stats_loop (keys cache.rows) (record { entries = 0; oldest_at = none; bytes = 0 }) cache

  -- The first loop of `evict`: the keys whose rows have expired.
  unfoldable pub sweep : List String → MemoryPromptCache E → ℕ × MemoryPromptCache E
  unfolding live
  sweep [] cache = (0, cache)
  sweep (key ∷ later) cache =
      let (row, after) = live key cache in
      let (removed, swept) = sweep later after in
      (elim row [ none ↦ removed + 1 | some r ↦ removed ], swept)

  -- The second loop of `evict` over the rows, oldest first: how many it removes, and the map that
  -- it leaves.
  unfoldable pub evict_loop : ℕ → ℕ → Dict (Row E) → ℕ → Dict (Row E) → ℕ × Dict (Row E)
  evict_loop max_entries max_bytes [] bytes rows = (0, rows)
  evict_loop max_entries max_bytes ((key, row) ∷ later) bytes rows =
      let rest = evict_loop max_entries max_bytes later (bytes - row.bytes) (delete key rows) in
      if leb (size rows) max_entries && leb bytes max_bytes then (0, rows) else (rest.0 + 1, rest.1)

  unfoldable pub evict : ℕ → ℕ → MemoryPromptCache E → ℕ × MemoryPromptCache E
  unfolding sweep evict_loop
  evict max_entries max_bytes cache =
      let (removed, swept) = sweep (keys cache.rows) cache in
      let (more, rows) =
        evict_loop max_entries max_bytes swept.rows (total_bytes swept.rows) swept.rows in
      (removed + more, record swept { rows = rows })
