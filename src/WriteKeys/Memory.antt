-- ===== src/WriteKeys/Memory.antt =====
-- packages/core/src/writekeys/memory.ts: the in-process store. The hash of a secret and what makes
-- ids, secrets and labels are parameters.
use omni_model.Prelude.{
  ℕ, String, Bool, true, false, Option, none, some, [], ◌∷◌, ◌==◌, if◌then◌else◌, or_else, is_some,
}
use omni_model.Prelude.Dict.{Dict, get, set}
use omni_model.WriteKeys.{WriteKey, CreateWriteKeyInput}

pub record Entry : Type 0 where
  pub key : WriteKey
  pub hash : String

abbrev pub MemoryWriteKeyStore : Type 0
MemoryWriteKeyStore = Dict Entry

pub record CreatedWriteKey : Type 0 where
  pub write_key : WriteKey
  pub secret : String

-- The key that `create` mints, from a fresh id, the label of its secret and the time.
unfoldable pub mint : String → String × String → ℕ → CreateWriteKeyInput → WriteKey
mint id (prefix, last4) now input = record {
  id = id;
  name = input.name;
  prefix = prefix;
  last4 = last4;
  allowed_models = input.allowed_models;
  capture_content = input.capture_content;
  metadata = or_else input.metadata "{}";
  created_by = input.created_by;
  created_at = now;
  expires_at = input.expires_at;
  disabled_at = none;
}

module _ (hash : String → String) (label : String → String × String) where
  unfoldable pub create :
      String
      → String
      → ℕ
      → CreateWriteKeyInput
      → MemoryWriteKeyStore
      → CreatedWriteKey × MemoryWriteKeyStore
  unfolding mint
  create id secret now input store = (
    record { write_key = mint id (label secret) now input; secret = secret },
    set id (record { key = mint id (label secret) now input; hash = hash secret }) store,
  )

-- The first key with the hash.
unfoldable pub find_hash : String → MemoryWriteKeyStore → Option WriteKey
find_hash h [] = none
find_hash h ((id, entry) ∷ store) =
    let rest = find_hash h store in if entry.hash == h then some entry.key else rest

unfoldable pub authenticate : (String → String) → String → MemoryWriteKeyStore → Option WriteKey
unfolding find_hash
authenticate hash secret store = find_hash (hash secret) store

unfoldable pub get_key : String → MemoryWriteKeyStore → Option WriteKey
get_key id store = elim (get id store) [ none ↦ none | some entry ↦ some entry.key ]

-- `revoke` of what the map has under the id.
unfoldable pub revoke_entry :
    String → ℕ → MemoryWriteKeyStore → Option Entry → Bool × MemoryWriteKeyStore
revoke_entry id now store none = (false, store)
revoke_entry id now store (some entry) =
    if is_some entry.key.disabled_at
    then (false, store)
    else (true, set id (record entry { key = record entry.key { disabled_at = some now } }) store)

unfoldable pub revoke : String → ℕ → MemoryWriteKeyStore → Bool × MemoryWriteKeyStore
unfolding revoke_entry
revoke id now store = revoke_entry id now store (get id store)
