-- ===== src/Cache/Memory/Sweep.antt =====
-- What the first loop of `evict` leaves.
use omni_model.Prelude.{
  ℕ, ◌+◌, String, ◌≡◌, refl, sym, ap, ◌∙◌, Bool, true, false, Option, none, some, List, [], ◌∷◌,
  arith, if◌then◌else◌, leb, ◌==◌, eq_iff, eq_refl, Bool-cases, inl, inr,
}
use omni_model.Prelude.Dict.{Dict, get, delete, size, Fresh, UniqueKeys}
use omni_model.Cache.Memory.{Row, MemoryPromptCache, has_expired, judge_row, live, keys, sweep}

eq_false : (a b : String) → (a == b) ≡ false → (b == a) ≡ false
eq_false a b other = ground (arith, eq_iff a b, eq_iff b a, other)

module _ {E : Type 0} where
  -- The rows that have not expired at a time, in order.
  abbrev pub live_rows : ℕ → Dict (Row E) → Dict (Row E)
  live_rows now [] = []
  live_rows now ((key, row) ∷ rows) =
      if leb row.expires_at now then live_rows now rows else (key, row) ∷ live_rows now rows

  abbrev pub cache_of : ℕ → Dict (Row E) → MemoryPromptCache E
  cache_of now rows = record { rows = rows; clock = now }

  pub delete-Fresh : (key : String) (rows : Dict (Row E)) → Fresh key rows → delete key rows ≡ rows
  unfolding delete
  delete-Fresh key [] f = refl
  delete-Fresh key ((j, row) ∷ rows) (other, f) = rw other (rw (delete-Fresh key rows f))

  -- A row in front that a sweep does not visit stays.
  abbrev in_front : String → Row E → ℕ × MemoryPromptCache E → ℕ × MemoryPromptCache E
  in_front key row (n, cache) = (n, record cache { rows = (key, row) ∷ cache.rows })

  abbrev counted : Option (Row E) → ℕ × MemoryPromptCache E → ℕ × MemoryPromptCache E
  counted none (n, cache) = (n + 1, cache)
  counted (some row) (n, cache) = (n, cache)

  counted-elim :
      (o : Option (Row E)) (s : ℕ × MemoryPromptCache E)
      → ((elim o [ none ↦ s.0 + 1 | some r ↦ s.0 ]), s.1) ≡ counted o s
  counted-elim none s = refl
  counted-elim (some r) s = refl

  sweep-cons :
      (j : String) (later : List String) (cache : MemoryPromptCache E)
      → sweep (j ∷ later) cache ≡ counted (live j cache).0 (sweep later (live j cache).1)
  unfolding sweep
  sweep-cons j later cache = counted-elim (live j cache).0 (sweep later (live j cache).1)

  abbrev behind :
      ℕ
      → String
      → Row E
      → Option (Row E) × MemoryPromptCache E
      → Option (Row E) × MemoryPromptCache E
  behind now key row (o, cache) = (o, cache_of now ((key, row) ∷ cache.rows))

  judge_row-behind :
      (now : ℕ) (key j : String) (row : Row E) (rows : Dict (Row E)) (o : Option (Row E))
      → (key == j) ≡ false
      → judge_row j (cache_of now ((key, row) ∷ rows)) o
        ≡ behind now key row (judge_row j (cache_of now rows) o)
  unfolding judge_row has_expired delete
  judge_row-behind now key j row rows none other = refl
  judge_row-behind now key j row rows (some r) other = elim (Bool-cases (leb r.expires_at now)) [
    | inl over ↦ rw over (rw other)
    | inr alive ↦ rw alive
  ]

  live-behind :
      (now : ℕ) (key j : String) (row : Row E) (rows : Dict (Row E))
      → (key == j) ≡ false
      → live j (cache_of now ((key, row) ∷ rows)) ≡ behind now key row (live j (cache_of now rows))
  unfolding live get
  live-behind now key j row rows other =
      rw other (judge_row-behind now key j row rows (get j rows) other)

  judge_row-clock :
      (j : String) (cache : MemoryPromptCache E) (o : Option (Row E))
      → (judge_row j cache o).1 ≡ cache_of cache.clock (judge_row j cache o).1.rows
  unfolding judge_row has_expired
  judge_row-clock j cache none = refl
  judge_row-clock j cache (some row) = elim (Bool-cases (leb row.expires_at cache.clock)) [
    | inl over ↦ rw over
    | inr alive ↦ rw alive
  ]

  live-clock :
      (j : String) (now : ℕ) (rows : Dict (Row E))
      → (live j (cache_of now rows)).1 ≡ cache_of now (live j (cache_of now rows)).1.rows
  unfolding live
  live-clock j now rows = judge_row-clock j (cache_of now rows) (get j rows)

  counted-in_front :
      (key : String) (row : Row E) (o : Option (Row E)) (s : ℕ × MemoryPromptCache E)
      → counted o (in_front key row s) ≡ in_front key row (counted o s)
  counted-in_front key row none s = refl
  counted-in_front key row (some r) s = refl

  -- A sweep that does not visit the row in front leaves it there.
  sweep-in_front :
      (now : ℕ) (key : String) (row : Row E) (later : Dict (Row E)) (rows : Dict (Row E))
      → Fresh key later
      → sweep (keys later) (cache_of now ((key, row) ∷ rows))
        ≡ in_front key row (sweep (keys later) (cache_of now rows))
  unfolding sweep
  sweep-in_front now key row [] rows f = refl
  sweep-in_front now key row ((j, r) ∷ later) rows (other, f) =
      let seen = live j (cache_of now rows) in
      sweep-cons j (keys later) (cache_of now ((key, row) ∷ rows))
      ∙ ap (λ s. counted s.0 (sweep (keys later) s.1))
          (live-behind now key j row rows (eq_false j key other))
      ∙ ap (counted seen.0) (
          sweep-in_front now key row later seen.1.rows f
          ∙ ap (λ c. in_front key row (sweep (keys later) c)) (sym (live-clock j now rows)))
      ∙ counted-in_front key row seen.0 (sweep (keys later) seen.1)
      ∙ ap (in_front key row) (sym (sweep-cons j (keys later) (cache_of now rows)))

  live-over :
      (now : ℕ) (key : String) (row : Row E) (rows : Dict (Row E))
      → leb row.expires_at now ≡ true
      → Fresh key rows
      → live key (cache_of now ((key, row) ∷ rows)) ≡ (none, cache_of now rows)
  unfolding live get judge_row has_expired delete
  live-over now key row rows over fresh =
      rw (eq_refl key) (rw over (rw (eq_refl key) (rw (delete-Fresh key rows fresh))))

  live-alive :
      (now : ℕ) (key : String) (row : Row E) (rows : Dict (Row E))
      → leb row.expires_at now ≡ false
      → live key (cache_of now ((key, row) ∷ rows)) ≡ (some row, cache_of now ((key, row) ∷ rows))
  unfolding live get judge_row has_expired
  live-alive now key row rows alive = rw (eq_refl key) (rw alive)

  -- The first loop leaves the live rows and counts the others.
  abbrev pub Swept : ℕ → Dict (Row E) → Type 0
  Swept now rows =
      (n : ℕ) × (sweep (keys rows) (cache_of now rows) ≡ (n, cache_of now (live_rows now rows)))
      × (n + size (live_rows now rows) ≡ size rows)

  sweep-live_rows-step :
      (now : ℕ) (key : String) (row : Row E) (rows : Dict (Row E)) (b : Bool)
      → leb row.expires_at now ≡ b
      → Fresh key rows
      → Swept now rows
      → Swept now ((key, row) ∷ rows)
  sweep-live_rows-step now key row rows true over fresh (n, swept, sum) = (
    n + 1,
    sweep-cons key (keys rows) (cache_of now ((key, row) ∷ rows))
        ∙ ap (λ s. counted s.0 (sweep (keys rows) s.1)) (live-over now key row rows over fresh)
        ∙ ap (counted none) swept
        ∙ rw over refl,
    rw over (omega (arith, sum)),
  )
  sweep-live_rows-step now key row rows false alive fresh (n, swept, sum) = (
    n,
    sweep-cons key (keys rows) (cache_of now ((key, row) ∷ rows))
        ∙ ap (λ s. counted s.0 (sweep (keys rows) s.1)) (live-alive now key row rows alive)
        ∙ sweep-in_front now key row rows rows fresh
        ∙ ap (in_front key row) swept
        ∙ rw alive refl,
    rw alive (omega (arith, sum)),
  )

  pub sweep-live_rows : (now : ℕ) (rows : Dict (Row E)) → UniqueKeys rows → Swept now rows
  unfolding sweep
  sweep-live_rows now [] u = (0, refl, refl)
  sweep-live_rows now ((key, row) ∷ rows) (fresh, u) =
      sweep-live_rows-step now key row rows _ refl fresh (sweep-live_rows now rows u)

  Fresh-live_rows :
      (now : ℕ) (key : String) (rows : Dict (Row E))
      → Fresh key rows
      → Fresh key (live_rows now rows)
  Fresh-live_rows now key [] f = tt
  Fresh-live_rows now key ((j, row) ∷ rows) f = ground (arith, Fresh-live_rows now key rows)

  pub UniqueKeys-live_rows :
      (now : ℕ) (rows : Dict (Row E)) → UniqueKeys rows → UniqueKeys (live_rows now rows)
  UniqueKeys-live_rows now [] u = tt
  UniqueKeys-live_rows now ((j, row) ∷ rows) u =
      ground (arith, UniqueKeys-live_rows now rows, Fresh-live_rows now j rows)
