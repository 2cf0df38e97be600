-- ===== src/ConfigStore.antt =====
-- packages/core/src/configstore/memory.ts: the revisions of the configuration. A document is a
-- parameter; `structuredClone` copies it, which values do not see. Listeners are named by numbers;
-- what they are told is the answer of `save`.
pub mod History
use omni_model.Prelude.{
  ℕ, ◌+◌, suc, String, Bool, true, false, Option, none, some, List, [], ◌∷◌, ◌++◌, map,
  if◌then◌else◌, eqb, length, take,
}

pub record StoredConfig (D : Type 0) : Type 0 where
  pub revision : ℕ
  pub document : D
  pub created_at : ℕ
  pub created_by : Option String
  pub note : Option String

pub record Revision (D : Type 0) : Type 0 where
  pub stored : StoredConfig D
  pub active : Bool

pub record StoredConfigMeta : Type 0 where
  pub revision : ℕ
  pub created_at : ℕ
  pub created_by : Option String
  pub note : Option String
  pub active : Bool

pub record SaveConfigOptions : Type 0 where
  pub created_by : Option String
  pub note : Option String

pub record MemoryConfigStore (D : Type 0) : Type 0 where
  pub revisions : List (Revision D)
  pub listeners : List ℕ

unfoldable pub remove_listener : ℕ → List ℕ → List ℕ
remove_listener l [] = []
remove_listener l (k ∷ ks) = let rest = remove_listener l ks in if eqb k l then rest else k ∷ rest

module _ {D : Type 0} where
  unfoldable pub find_active : List (Revision D) → Option (StoredConfig D)
  find_active [] = none
  find_active (r ∷ rs) = let later = find_active rs in if r.active then some r.stored else later

  unfoldable pub load_active : MemoryConfigStore D → Option (StoredConfig D)
  unfolding find_active
  load_active store = find_active store.revisions

  unfoldable pub deactivate : List (Revision D) → List (Revision D)
  deactivate [] = []
  deactivate (r ∷ rs) = record r { active = false } ∷ deactivate rs

  unfoldable pub next_revision : D → SaveConfigOptions → ℕ → List (Revision D) → StoredConfig D
  next_revision document options now revisions = record {
    revision = suc (length revisions);
    document = document;
    created_at = now;
    created_by = options.created_by;
    note = options.note;
  }

  -- `save`: the new revision, what each listener is told, and the store after it.
  unfoldable pub save :
      D
      → SaveConfigOptions
      → ℕ
      → MemoryConfigStore D
      → StoredConfig D × List (ℕ × ℕ) × MemoryConfigStore D
  unfolding next_revision
  save document options now store = (
    next_revision document options now store.revisions,
    map (λ listener. (listener, suc (length store.revisions))) store.listeners,
    record store {
      revisions =
          deactivate store.revisions
          ++ record { stored = next_revision document options now store.revisions; active = true }
            ∷ [];
    },
  )

  unfoldable pub find_revision : ℕ → List (Revision D) → Option (StoredConfig D)
  find_revision n [] = none
  find_revision n (r ∷ rs) =
      let later = find_revision n rs in if eqb r.stored.revision n then some r.stored else later

  unfoldable pub get_revision : ℕ → MemoryConfigStore D → Option (StoredConfig D)
  unfolding find_revision
  get_revision n store = find_revision n store.revisions

  unfoldable pub reverse_onto : List (Revision D) → List (Revision D) → List (Revision D)
  reverse_onto [] out = out
  reverse_onto (r ∷ rs) out = reverse_onto rs (r ∷ out)

  unfoldable pub meta_of : Revision D → StoredConfigMeta
  meta_of r = record {
    revision = r.stored.revision;
    created_at = r.stored.created_at;
    created_by = r.stored.created_by;
    note = r.stored.note;
    active = r.active;
  }

  unfoldable pub history : ℕ → MemoryConfigStore D → List StoredConfigMeta
  history limit store = map meta_of (take limit (reverse_onto store.revisions []))

  -- `watch`, for a listener that does not watch already, and what the returned function does.
  unfoldable pub watch : ℕ → MemoryConfigStore D → MemoryConfigStore D
  watch l store = record store { listeners = store.listeners ++ l ∷ [] }

  unfoldable pub unwatch : ℕ → MemoryConfigStore D → MemoryConfigStore D
  unfolding remove_listener
  unwatch l store = record store { listeners = remove_listener l store.listeners }

  unfoldable pub close : MemoryConfigStore D → MemoryConfigStore D
  close store = record store { listeners = [] }
