-- ===== src/Secrets/Credentials/Overwritten.antt =====
-- What happens to a reference that has moved in its array when a new credential is put in its place
-- (packages/core/src/secrets/credentials.ts).
use omni_model.Prelude.{◌≡◌, refl, subst, String, true, false, Option, some, [], ◌∷◌, ◌==◌, ◌++◌}
use omni_model.Prelude.Text.{◌<>◌, show}
use omni_model.Secrets.Resolver.{
  Json, text, array, object, last_item, item, last_field, field, reference_of,
}
use omni_model.Secrets.Credentials.{
  SecretStore, is_credential_field, looks_like_env_reference, treatment, treated, of_object,
  child_path, reference_to_secret, Sealing, seal, walk,
}

abbrev pub entry : String → Json → Json
entry name value = object (field name value last_field)

abbrev pub two : Json → Json → Json
two first second = array (item first (item second last_item))

module _ {S : Type 0} (store : SecretStore S) (prefix : String) where
  walk-credential :
      (path name value : String) (s : Sealing S)
      → is_credential_field name ≡ true
      → (name == "$secret") ≡ false
      → (value == "") ≡ false
      → looks_like_env_reference value ≡ false
      → walk store prefix (entry name (text value)) path s ≡ (
        entry name (
            reference_to_secret
              (store.put (prefix <> "." <> child_path path name) value s.store).0),
        record {
          store = (store.put (prefix <> "." <> child_path path name) value s.store).1;
          sealed = s.sealed ++ child_path path name ∷ [];
        },
      )
  unfolding walk treated treatment of_object seal reference_of
  walk-credential path name value s credential plain nonempty no_env =
      rw plain (rw credential (rw nonempty (rw no_env)))

  walk-two :
      (first second : Json) (path : String) (s : Sealing S)
      → walk store prefix (two first second) path s ≡ (
          let (one, s') = walk store prefix first (path <> "[" <> show 0 <> "]") s in
          let (other, s'') = walk store prefix second (path <> "[" <> show 1 <> "]") s' in
          (two one other, s''))
  unfolding walk
  walk-two first second path s = refl

  walk-reference :
      (path name id : String) (s : Sealing S)
      → (name == "$secret") ≡ false
      → walk store prefix (entry name (reference_to_secret id)) path s
        ≡ (entry name (reference_to_secret id), s)
  unfolding walk treated treatment of_object seal reference_of
  walk-reference path name id s plain = rw plain

module _ {S : Type 0} (store : SecretStore S) (named : String → S → Option String)
    (keeps_id : (name value id : String) (s : S)
      → named name s ≡ some id
      → (store.put name value s).0 ≡ id)
    (is_revealed : (name value : String) (s : S)
      → store.reveal (store.put name value s).0 (store.put name value s).1 ≡ some value) where
  -- Where the first place of an array had a secret under the name of its path, a new credential put
  -- there takes that secret's row: a reference to it that has moved to the second place stays, and
  -- reveals the new credential from then on. So it is for every credential's field and every text
  -- that is neither empty nor an environment reference, with a store whose `put` keeps the id of a
  -- name and is revealed.
  pub moved_reference_overwritten :
      (prefix path name id value : String) (s : Sealing S)
      → is_credential_field name ≡ true
      → (name == "$secret") ≡ false
      → (value == "") ≡ false
      → looks_like_env_reference value ≡ false
      → named (prefix <> "." <> child_path (path <> "[" <> show 0 <> "]") name) s.store ≡ some id
      → ((walk store prefix
            (two (entry name (text value)) (entry name (reference_to_secret id)))
            path
            s).0
          ≡ two (entry name (reference_to_secret id)) (entry name (reference_to_secret id)))
        × (store.reveal id
              (walk store prefix
                (two (entry name (text value)) (entry name (reference_to_secret id)))
                path
                s).1.store
            ≡ some value)
  moved_reference_overwritten prefix path name id value s credential plain nonempty no_env there =
      let first : String = path <> "[" <> show 0 <> "]" in
      let child : String = prefix <> "." <> child_path first name in
      let same : (store.put child value s.store).0 ≡ id = keeps_id child value id s.store there in
      rw
        (walk-two store prefix (entry name (text value)) (entry name (reference_to_secret id)) path
          s)
        (rw (walk-credential store prefix first name value s credential plain nonempty no_env) (
          rw same (
            rw
              (walk-reference store prefix (path <> "[" <> show 1 <> "]") name id
                (record {
                  store = (store.put child value s.store).1;
                  sealed = s.sealed ++ child_path first name ∷ [];
                })
                plain)
              (
                refl,
                subst
                    (λ (i : String). store.reveal i (store.put child value s.store).1 ≡ some value)
                    (same) (is_revealed child value s.store),
              ))))
