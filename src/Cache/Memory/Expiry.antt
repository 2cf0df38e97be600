-- ===== src/Cache/Memory/Expiry.antt =====
-- What a read answers after a write.
use omni_model.Prelude.{
  ℕ, ◌+◌, ◌*◌, String, ◌≡◌, refl, sym, ◌∙◌, Option, none, some, arith, if◌then◌else◌, ltb, leb,
  leb→le, inl, inr, ◌==◌, Bool-cases,
}
use omni_model.Prelude.Dict.{get, get-set, get-delete}
use omni_model.Cache.Memory.{Row, MemoryPromptCache, has_expired, judge_row, live, read_entry, put}

module _ {E : Type 0} where
  -- The entry that a row gives at a time.
  abbrev pub entry_at : ℕ → Option (Row E) → Option E
  entry_at now none = none
  entry_at now (some row) = if ltb now row.expires_at then some row.entry else none

  judge_row-entry_at :
      (key : String) (cache : MemoryPromptCache E) (o : Option (Row E))
      → (elim (judge_row key cache o).0 [ none ↦ none | some r ↦ some r.entry ])
        ≡ entry_at cache.clock o
  unfolding judge_row has_expired
  judge_row-entry_at key cache none = refl
  judge_row-entry_at key cache (some row) = elim (Bool-cases (leb row.expires_at cache.clock)) [
    | inl over ↦ rw over (ground (arith, leb→le row.expires_at cache.clock over))
    | inr alive ↦ rw alive (ground (arith, alive))
  ]

  read_entry-entry_at :
      (key : String) (cache : MemoryPromptCache E)
      → (read_entry key cache).0 ≡ entry_at cache.clock (get key cache.rows)
  unfolding read_entry live
  read_entry-entry_at key cache = judge_row-entry_at key cache (get key cache.rows)

  -- The cache at another time.
  abbrev pub at : MemoryPromptCache E → ℕ → MemoryPromptCache E
  at cache now = record cache { clock = now }

  -- After `put`, a later read of the key gives the entry until its time is over and nothing from
  -- then on; a read of another key gives what it would have given.
  pub read_entry-put :
      (byte_size : E → ℕ) (key j : String) (entry : E) (ttl_seconds later : ℕ)
      (cache : MemoryPromptCache E)
      → (read_entry j (at (put byte_size key entry ttl_seconds cache) later)).0 ≡ (
          if key == j
          then if ltb later (cache.clock + ttl_seconds * 1000) then some entry else none
          else (read_entry j (at cache later)).0)
  unfolding put
  read_entry-put byte_size key j entry ttl_seconds later cache =
      read_entry-entry_at j (at (put byte_size key entry ttl_seconds cache) later)
      ∙ elim (Bool-cases (key == j)) [
        | inl same ↦ rw (get-set key j) (rw same)
        | inr other ↦ rw (get-set key j) (
            rw other
              (rw (get-delete key j) (rw other (sym (read_entry-entry_at j (at cache later))))))
      ]
