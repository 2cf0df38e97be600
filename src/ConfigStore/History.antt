-- ===== src/ConfigStore/History.antt =====
-- The history only grows, and the last revision is the one that is served.
use omni_model.Prelude.{
  ℕ, ◌+◌, ◌<◌, suc, ◌≡◌, refl, ap, ◌∙◌, true, none, some, List, [], ◌∷◌, ◌++◌, arith, if◌then◌else◌,
  eqb, length,
}
use omni_model.ConfigStore.{
  StoredConfig, Revision, SaveConfigOptions, MemoryConfigStore, find_active, load_active,
  deactivate, next_revision, save, find_revision, get_revision,
}

module _ {D : Type 0} where
  -- The revisions are numbered one after the other.
  abbrev pub NumberedFrom : ℕ → List (Revision D) → Type 0
  NumberedFrom n [] = Unit
  NumberedFrom n (r ∷ rs) = (r.stored.revision ≡ n) × NumberedFrom (suc n) rs

  find_active-saved :
      (rs : List (Revision D)) (stored : StoredConfig D)
      → find_active (deactivate rs ++ record { stored = stored; active = true } ∷ []) ≡ some stored
  unfolding find_active deactivate
  find_active-saved [] stored = refl
  find_active-saved (r ∷ rs) stored = find_active-saved rs stored

  length-deactivate : (rs : List (Revision D)) → length (deactivate rs) ≡ length rs
  unfolding deactivate
  length-deactivate [] = refl
  length-deactivate (r ∷ rs) = ap suc (length-deactivate rs)

  NumberedFrom-save :
      (n : ℕ) (rs : List (Revision D)) (r : Revision D)
      → NumberedFrom n rs
      → r.stored.revision ≡ n + length rs
      → NumberedFrom n (deactivate rs ++ r ∷ [])
  unfolding deactivate
  NumberedFrom-save n [] r numbered same = (omega (arith, same), tt)
  NumberedFrom-save n (x ∷ rs) r (first, numbered) same =
      (first, NumberedFrom-save (suc n) rs r numbered (omega (arith, same)))

  find_revision-later :
      (n k : ℕ) (rs : List (Revision D)) → NumberedFrom k rs → n < k → find_revision n rs ≡ none
  unfolding find_revision
  find_revision-later n k [] numbered less = refl
  find_revision-later n k (r ∷ rs) (first, numbered) less =
      ground (arith, first, less, find_revision-later n (suc k) rs numbered)

  -- Looking an older revision up is not changed by a save; the new one is found.
  find_revision-save :
      (m n : ℕ) (rs : List (Revision D)) (stored : StoredConfig D)
      → NumberedFrom n rs
      → stored.revision ≡ n + length rs
      → find_revision m (deactivate rs ++ record { stored = stored; active = true } ∷ [])
        ≡ (if eqb m (n + length rs) then some stored else find_revision m rs)
  unfolding find_revision deactivate
  find_revision-save m n [] stored numbered same = ground (arith, same)
  find_revision-save m n (r ∷ rs) stored (first, numbered) same =
      ground
        (arith, first, same, find_revision-save m (suc n) rs stored numbered (omega (arith, same)))

-- A save numbers the new revision after all others and makes it the active one; every older
-- revision is still found with its document, and the numbers stay consecutive from 1.
pub save_appends :
    {D : Type 0} (document : D) (options : SaveConfigOptions) (now m : ℕ)
    (store : MemoryConfigStore D)
    → NumberedFrom 1 store.revisions
    → let (stored, told, after) = save document options now store in
      (load_active after ≡ some stored)
      × (stored.revision ≡ suc (length store.revisions))
      × (get_revision m after
          ≡ (if eqb m (suc (length store.revisions)) then some stored else get_revision m store))
      × NumberedFrom 1 after.revisions
unfolding load_active save next_revision get_revision
save_appends document options now m store numbered = (
  find_active-saved store.revisions (next_revision document options now store.revisions),
  refl,
  find_revision-save m 1 store.revisions (next_revision document options now store.revisions)
        numbered (omega arith)
      ∙ ap
          (λ k.
            if eqb m k
            then some (next_revision document options now store.revisions)
            else find_revision m store.revisions)
          (omega arith),
  NumberedFrom-save 1 store.revisions
      (record { stored = next_revision document options now store.revisions; active = true })
      numbered (omega arith),
)
