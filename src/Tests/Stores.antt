-- ===== src/Tests/Stores.antt =====
-- The prompt cache with two rows, one of which is over.
use omni_model.Prelude.{ℕ, ◌+◌, String, ◌≡◌, refl, [], ◌∷◌}
use omni_model.Prelude.Dict.{get, delete, size, UniqueKeys}
use omni_model.Cache.Memory.{Row, MemoryPromptCache, evict}
use omni_model.Cache.Memory.Sweep.{live_rows}
use omni_model.Cache.Memory.Evict.{IsLeastCut, evict_exact}

abbrev row : ℕ → Row String
row end = record { entry = "response"; stored_at = 0; expires_at = end; bytes = 8 }

abbrev cache : MemoryPromptCache String
cache = record { rows = ("over", row 1000) ∷ ("a", row 9000) ∷ ("b", row 9000) ∷ []; clock = 5000 }

cache-UniqueKeys : UniqueKeys cache.rows
cache-UniqueKeys = ((refl, (refl, tt)), ((refl, tt), (tt, tt)))

evict_exact_example :
    let (removed, after) = evict 1 100 cache in
    (removed + size after.rows ≡ size cache.rows)
    × (after.clock ≡ cache.clock)
    × ((n : ℕ) × IsLeastCut 1 100 (live_rows cache.clock cache.rows) after.rows n)
evict_exact_example = evict_exact 1 100 cache cache-UniqueKeys

evicted : (evict 1 100 cache).0 ≡ 2
unfolding evict get delete
evicted = refl
