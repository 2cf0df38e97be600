-- ===== src/Cache/Memory/Evict.antt =====
-- What `evict` removes.
use omni_model.Prelude.{
  ℕ, zero, suc, ◌+◌, ◌-◌, ◌≤◌, ◌<◌, String, ◌≡◌, refl, true, false, ◌&&◌, [], ◌∷◌, arith, leb,
  eq_refl, Bool-cases, inl, inr, drop,
}
use omni_model.Prelude.Dict.{Dict, delete, size, Fresh, UniqueKeys}
use omni_model.Cache.Memory.{Row, MemoryPromptCache, total_bytes, evict_loop, evict}
use omni_model.Cache.Memory.Sweep.{live_rows, delete-Fresh, sweep-live_rows, UniqueKeys-live_rows}

add_one : (n : ℕ) → n + 1 ≡ suc n
add_one n = omega arith

add_sub : (a b : ℕ) → a + b - a ≡ b
add_sub a b = omega arith

module _ {E : Type 0} where
  -- The rows are within both bounds.
  abbrev pub Fits : ℕ → ℕ → Dict (Row E) → Type 0
  Fits max_entries max_bytes rows = (size rows ≤ max_entries) × (total_bytes rows ≤ max_bytes)

  -- The second loop takes away the oldest rows, as few as leave the rest within the bounds.
  pub record IsLeastCut (max_entries max_bytes : ℕ) (rows left : Dict (Row E)) (n : ℕ)
      : Type 0 where
    pub rest : left ≡ drop n rows
    pub fits : Fits max_entries max_bytes left
    pub least : (m : ℕ) → m < n → Fits max_entries max_bytes (drop m rows) → ⊥
    pub sum : n + size left ≡ size rows

  evict_loop_rest :
      (a b : ℕ) (key : String) (row : Row E) (rows : Dict (Row E))
      → Fresh key rows
      → evict_loop a b rows
          (row.bytes + total_bytes rows - row.bytes)
          (delete key ((key, row) ∷ rows))
        ≡ evict_loop a b rows (total_bytes rows) rows
  unfolding delete
  evict_loop_rest a b key row rows fresh =
      rw (eq_refl key)
        (rw (delete-Fresh key rows fresh) (rw (add_sub row.bytes (total_bytes rows))))

  IsLeastCut-zero :
      (a b : ℕ) (rows : Dict (Row E))
      → (leb (size rows) a && leb (total_bytes rows) b) ≡ true
      → IsLeastCut a b rows rows 0
  IsLeastCut-zero a b rows fits = record {
    rest = refl;
    fits = (ground (arith, fits), ground (arith, fits));
    least = λ m less fit. omega (arith, less);
    sum = omega arith;
  }

  IsLeastCut-suc :
      (a b : ℕ) (key : String) (row : Row E) (rows left : Dict (Row E)) (n : ℕ)
      → (leb (size ((key, row) ∷ rows)) a && leb (total_bytes ((key, row) ∷ rows)) b) ≡ false
      → IsLeastCut a b rows left n
      → IsLeastCut a b ((key, row) ∷ rows) left (suc n)
  IsLeastCut-suc a b key row rows left n full h = record {
    rest = h.rest;
    fits = h.fits;
    least = least_suc;
    sum = omega (arith, h.sum);
  }
    where
      least_suc : (m : ℕ) → m < suc n → Fits a b (drop m ((key, row) ∷ rows)) → ⊥
      least_suc zero less (few, small) = ground (arith, full, few, small)
      least_suc (suc m) less fit = h.least m (omega (arith, less)) fit

  evict_loop-IsLeastCut :
      (a b : ℕ) (rows : Dict (Row E))
      → UniqueKeys rows
      → IsLeastCut a b rows
          (evict_loop a b rows (total_bytes rows) rows).1
          (evict_loop a b rows (total_bytes rows) rows).0
  unfolding evict_loop
  evict_loop-IsLeastCut a b [] u = record {
    rest = refl;
    fits = (omega arith, omega arith);
    least = λ m less fit. omega (arith, less);
    sum = refl;
  }
  evict_loop-IsLeastCut a b ((key, row) ∷ rows) (fresh, u) =
      elim (Bool-cases
        (leb (size ((key, row) ∷ rows)) a && leb (total_bytes ((key, row) ∷ rows)) b)) [
          | inl fits ↦ rw fits (IsLeastCut-zero a b ((key, row) ∷ rows) fits)
          | inr full ↦ rw full (
              rw (evict_loop_rest a b key row rows fresh) (
                rw (add_one (evict_loop a b rows (total_bytes rows) rows).0)
                  (IsLeastCut-suc a b key row rows _ _ full (evict_loop-IsLeastCut a b rows u))))
        ]

-- `evict` first drops every expired row, then as few of the oldest of the others as bring the cache
-- within both bounds, and answers how many rows it removed.
pub evict_exact :
    {E : Type 0} (max_entries max_bytes : ℕ) (cache : MemoryPromptCache E)
    → UniqueKeys cache.rows
    → let (removed, after) = evict max_entries max_bytes cache in
      (removed + size after.rows ≡ size cache.rows)
      × (after.clock ≡ cache.clock)
      × ((n : ℕ) × IsLeastCut max_entries max_bytes (live_rows cache.clock cache.rows) after.rows n)
unfolding evict
evict_exact max_entries max_bytes cache u =
    let (n, swept, sum) = sweep-live_rows cache.clock cache.rows u in
    let rows = live_rows cache.clock cache.rows in
    let cut =
      evict_loop-IsLeastCut max_entries max_bytes rows
        (UniqueKeys-live_rows cache.clock cache.rows u) in
    rw swept (omega (arith, sum, cut.sum), refl, (_, cut))
