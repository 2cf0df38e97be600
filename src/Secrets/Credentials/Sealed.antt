-- ===== src/Secrets/Credentials/Sealed.antt =====
-- What is left of credentials in a document that is sealed
-- (packages/core/src/secrets/credentials.ts).
use omni_model.Prelude.{ℕ, suc, ◌≡◌, refl, subst, ◌⊎◌, inl, inr, String, true, [], ◌==◌, Bool-cases}
use omni_model.Prelude.Text.{◌<>◌, show}
use omni_model.Secrets.Resolver.{
  Json, text, atom, array, object, Items, last_item, item, Fields, last_field, field, Reference,
  plain, malformed, to, reference_of,
}
use omni_model.Secrets.Credentials.{
  SecretStore, is_credential_field, looks_like_env_reference, Treatment, left_alone, descended,
  sealing, treatment, treated, of_object, child_path, Sealing, seal, walk, walk_items, walk_fields,
  seal_credentials,
}

-- A field does not hold a credential's text, unless it is empty or an environment reference.
abbrev pub Harmless : String → Json → Type 0
Harmless name value =
    (credential : String)
    → is_credential_field name ≡ true
    → value ≡ text credential
    → ((credential == "") ≡ true) ⊎ (looks_like_env_reference credential ≡ true)

abbrev pub Unless : Reference → Type 0 → Type 0
Unless plain P = P
Unless malformed P = P
Unless (to id) P = Unit

-- No field holds a credential's text, at any depth, except in an object that is a reference.
abbrev mutual
  pub NoneIn : Json → Type 0
  NoneIn (text value) = Unit
  NoneIn (atom value) = Unit
  NoneIn (array items) = NoneInItems items
  NoneIn (object fields) = Unless (reference_of fields) (NoneInFields fields)

  pub NoneInItems : Items → Type 0
  NoneInItems last_item = Unit
  NoneInItems (item value items) = NoneIn value × NoneInItems items

  pub NoneInFields : Fields → Type 0
  NoneInFields last_field = Unit
  NoneInFields (field name value fields) = Harmless name value × NoneIn value × NoneInFields fields

Unless-all : (r : Reference) {P : Type 0} → P → Unless r P
Unless-all plain p = p
Unless-all malformed p = p
Unless-all (to id) p = tt

module _ {S : Type 0} (store : SecretStore S) (prefix : String) where
  of_object-NoneIn :
      (r : Reference) (fields walked : Fields) (s s' : Sealing S)
      → reference_of fields ≡ r
      → NoneInFields walked
      → NoneIn (of_object store prefix r fields s (walked, s')).0
  unfolding of_object
  of_object-NoneIn (to id) fields walked s s' same none = rw same tt
  of_object-NoneIn plain fields walked s s' same none = Unless-all (reference_of walked) none
  of_object-NoneIn malformed fields walked s s' same none = Unless-all (reference_of walked) none

  text-Harmless :
      (name child v : String) (s : Sealing S)
      → Harmless name
          (treated store prefix
            (treatment name (text v))
            child
            (text v)
            s
            (walk store prefix (text v) child s)).0
  unfolding treated treatment walk seal
  text-Harmless name child v s c cred is = elim (Bool-cases (v == "")) [
    | inl empty ↦
        let same : text v ≡ text c = rw empty at (rw cred at is) in
        inl (subst (λ (t : String). (t == "") ≡ true) (cc) empty)
    | inr some_text ↦ elim (Bool-cases (looks_like_env_reference v)) [
      | inl env ↦
          let same : text v ≡ text c = rw env at (rw some_text at (rw cred at is)) in
          inr (subst (λ (t : String). looks_like_env_reference t ≡ true) (cc) env)
      | inr other ↦ cc (rw other at (rw some_text at (rw cred at is)))
    ]
  ]

  of_object-not_text :
      (r : Reference) (fields : Fields) (s : Sealing S) (w : Fields × Sealing S) (c : String)
      → (of_object store prefix r fields s w).0 ≡ text c
      → ⊥
  unfolding of_object
  of_object-not_text (to id) fields s (walked, s') c is = cc
  of_object-not_text plain fields s (walked, s') c is = cc
  of_object-not_text malformed fields s (walked, s') c is = cc

  treated-Harmless :
      (name child : String) (value : Json) (s : Sealing S)
      → Harmless name
          (treated store prefix
            (treatment name value)
            child
            value
            s
            (walk store prefix value child s)).0
  unfolding treated treatment walk of_object
  treated-Harmless name child (text v) s c cred is = text-Harmless name child v s c cred is
  treated-Harmless name child (atom v) s c cred is = cc
  treated-Harmless name child (array v) s c cred is = cc
  treated-Harmless name child (object v) s c cred is =
      absurd (of_object-not_text (reference_of v) v s (walk_fields store prefix v child s) c is)

  treated_text-NoneIn :
      (t : Treatment) (child v : String) (s : Sealing S) (w : Json × Sealing S)
      → NoneIn w.0
      → NoneIn (treated store prefix t child (text v) s w).0
  unfolding treated seal reference_of
  treated_text-NoneIn left_alone child v s w none = tt
  treated_text-NoneIn descended child v s w none = none
  treated_text-NoneIn (sealing c) child v s w none = tt

  treated-NoneIn :
      (name child : String) (value : Json) (s : Sealing S)
      → NoneIn (walk store prefix value child s).0
      → NoneIn
          (treated store prefix
            (treatment name value)
            child
            value
            s
            (walk store prefix value child s)).0
  unfolding treated treatment
  treated-NoneIn name child (text v) s none =
      treated_text-NoneIn (treatment name (text v)) child v s (walk store prefix (text v) child s)
        none
  treated-NoneIn name child (atom v) s none = none
  treated-NoneIn name child (array items) s none = none
  treated-NoneIn name child (object fields) s none = none

  mutual
    unfolding walk

    walk-NoneIn :
        (value : Json) (path : String) (s : Sealing S) → NoneIn (walk store prefix value path s).0
    walk-NoneIn (text v) path s = tt
    walk-NoneIn (atom v) path s = tt
    walk-NoneIn (array items) path s = walk_items-NoneIn items path 0 s
    walk-NoneIn (object fields) path s =
        of_object-NoneIn (reference_of fields) fields (walk_fields store prefix fields path s).0 s
          (walk_fields store prefix fields path s).1 refl (walk_fields-NoneIn fields path s)

    walk_items-NoneIn :
        (items : Items) (path : String) (index : ℕ) (s : Sealing S)
        → NoneInItems (walk_items store prefix items path index s).0
    walk_items-NoneIn last_item path index s = tt
    walk_items-NoneIn (item value items) path index s = (
      walk-NoneIn value (path <> "[" <> show index <> "]") s,
      walk_items-NoneIn items path (suc index)
          (walk store prefix value (path <> "[" <> show index <> "]") s).1,
    )

    walk_fields-NoneIn :
        (fields : Fields) (path : String) (s : Sealing S)
        → NoneInFields (walk_fields store prefix fields path s).0
    walk_fields-NoneIn last_field path s = tt
    walk_fields-NoneIn (field name value fields) path s =
        let child = child_path path name in
        let r =
          treated store prefix (treatment name value) child value s
            (walk store prefix value child s) in
        (
          treated-Harmless name child value s,
          treated-NoneIn name child value s (walk-NoneIn value child s),
          walk_fields-NoneIn fields path r.1,
        )

  -- Whatever a document holds, no field of the sealed document holds a credential's text at any depth,
  -- but for empty texts, environment references and what stands in an object that is a reference.
  pub seal_credentials-NoneIn :
      (document : Json) (s : S) → NoneIn (seal_credentials store prefix document s).0
  unfolding seal_credentials
  seal_credentials-NoneIn document s = walk-NoneIn document "" (record { store = s; sealed = [] })
