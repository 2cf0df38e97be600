-- ===== src/Secrets/Credentials.antt =====
-- packages/core/src/secrets/credentials.ts: credentials in a document are put into a store, and a
-- reference stands in for each. The items of an array are walked in order; a store's `put` that throws
-- is outside the model.
pub mod Sealed
pub mod Overwritten
use omni_model.Prelude.{
  ℕ, suc, String, Bool, true, false, List, [], ◌∷◌, ◌++◌, ◌&&◌, ◌||◌, ◌==◌, Option, not, eqb,
  if◌then◌else◌,
}
use omni_model.Prelude.Text.{◌<>◌, show}
use omni_model.Prelude.Codes.{codes}
use omni_model.Util.Duration.{trim}
use omni_model.Secrets.Resolver.{
  Json, text, atom, array, object, Items, last_item, item, Fields, last_field, field, Reference,
  plain, malformed, to, reference_of,
}

-- What the walk calls of a `SecretStore`: `put` answers the id.
pub record SecretStore (S : Type 0) : Type 0 where
  pub put : String → String → S → String × S
  pub reveal : String → S → Option String

unfoldable pub is_credential_field : String → Bool
is_credential_field name =
    name == "apiKey"
    || name == "secret"
    || name == "jwtSecret"
    || name == "privateKey"
    || name == "serviceAccountKey"

ends_here : List ℕ → Bool
ends_here [] = true
ends_here (c ∷ s) = false

-- `[^}]+\}$`, once some characters are read
closes_last : Bool → List ℕ → Bool
unfolding ends_here
closes_last some_read [] = false
closes_last some_read (c ∷ s) =
    let rest = closes_last true s in if eqb c 125 then some_read && ends_here s else rest

opens_reference : List ℕ → Bool
unfolding closes_last
opens_reference [] = false
opens_reference (c ∷ []) = false
opens_reference (c ∷ d ∷ s) = eqb c 36 && eqb d 123 && closes_last false s

unfoldable pub looks_like_env_reference : String → Bool
unfolding opens_reference
looks_like_env_reference value = opens_reference (codes (trim value))

-- What becomes of the value of a field.
pub data Treatment : Type 0 where
  left_alone descended : Treatment
  sealing : String → Treatment

unfoldable pub treatment : String → Json → Treatment
treatment name (text value) =
    if is_credential_field name && not (value == "")
    then if looks_like_env_reference value then left_alone else sealing value
    else descended
treatment name (atom value) = descended
treatment name (array items) = descended
treatment name (object fields) = descended

unfoldable pub child_path : String → String → String
child_path path name = if path == "" then name else path <> "." <> name

abbrev pub reference_to_secret : String → Json
reference_to_secret id = object (field "$secret" (text id) last_field)

-- The store and the paths that were sealed, in their order.
pub record Sealing (S : Type 0) : Type 0 where
  pub store : S
  pub sealed : List String

module _ {S : Type 0} (store : SecretStore S) (prefix : String) where
  seal : String → String → Sealing S → Json × Sealing S
  seal child value s =
      let (id, store') = store.put (prefix <> "." <> child) value s.store in
      (reference_to_secret id, record { store = store'; sealed = s.sealed ++ child ∷ [] })

  treated : Treatment → String → Json → Sealing S → Json × Sealing S → Json × Sealing S
  unfolding seal
  treated left_alone child value s walked = (value, s)
  treated (sealing credential) child value s walked = seal child credential s
  treated descended child value s walked = walked

  of_object : Reference → Fields → Sealing S → Fields × Sealing S → Json × Sealing S
  of_object (to id) fields s (walked, s') = (object fields, s)
  of_object plain fields s (walked, s') = (object walked, s')
  of_object malformed fields s (walked, s') = (object walked, s')

  unfoldable mutual
    unfolding treated of_object treatment child_path

    pub walk : Json → String → Sealing S → Json × Sealing S
    walk (text value) path s = (text value, s)
    walk (atom value) path s = (atom value, s)
    walk (array items) path s = let (walked, s') = walk_items items path 0 s in (array walked, s')
    walk (object fields) path s =
        of_object (reference_of fields) fields s (walk_fields fields path s)

    pub walk_items : Items → String → ℕ → Sealing S → Items × Sealing S
    walk_items last_item path index s = (last_item, s)
    walk_items (item value items) path index s =
        let (first, s') = walk value (path <> "[" <> show index <> "]") s in
        let (rest, s'') = walk_items items path (suc index) s' in (item first rest, s'')

    pub walk_fields : Fields → String → Sealing S → Fields × Sealing S
    walk_fields last_field path s = (last_field, s)
    walk_fields (field name value fields) path s =
        let child = child_path path name in
        let (first, s') = treated (treatment name value) child value s (walk value child s) in
        let (rest, s'') = walk_fields fields path s' in (field name first rest, s'')

  -- The document with references in place of credentials, the paths that were sealed, the store.
  unfoldable pub seal_credentials : Json → S → Json × Sealing S
  unfolding walk
  seal_credentials document s = walk document "" (record { store = s; sealed = [] })
