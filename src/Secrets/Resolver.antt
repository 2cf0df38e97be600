-- ===== src/Secrets/Resolver.antt =====
-- packages/core/src/secrets/resolver.ts: the references to secrets in a document. A document is a
-- JSON value whose objects hold each name once; the store is what `reveal` answers for an id.
pub mod References
use omni_model.Prelude.{
  ℕ, suc, String, Bool, true, false, Option, none, some, List, [], ◌∷◌, ◌==◌, if◌then◌else◌,
  is_some, length,
}
use omni_model.Prelude.Text.{◌<>◌, show}
use omni_model.Prelude.Dict.{Dict, get, set, size}
use omni_model.Prelude.Result.{Result, ok, err, ◌>>=◌}
use omni_model.Util.Duration.{trim}

mutual
  pub data Json : Type 0 where
    text : String → Json
    -- a number, a Boolean or null
    atom : String → Json
    array : Items → Json
    object : Fields → Json

  pub data Items : Type 0 where
    last_item : Items
    item : Json → Items → Items

  pub data Fields : Type 0 where
    last_field : Fields
    field : String → Json → Fields → Fields

-- What `isSecretRef` and `looksLikeSecretRef` make of the value under "$secret".
pub data Reference : Type 0 where
  plain malformed : Reference
  to : String → Reference

unfoldable pub reference_to : Json → Reference
reference_to (text id) = to id
reference_to (atom s) = malformed
reference_to (array items) = malformed
reference_to (object fields) = malformed

unfoldable pub reference_of : Fields → Reference
unfolding reference_to
reference_of last_field = plain
reference_of (field name value fields) =
    let later = reference_of fields in if name == "$secret" then reference_to value else later

-- The names beside "$secret", joined.
unfoldable pub extra_names : Fields → String
extra_names last_field = ""
extra_names (field name value fields) =
    let later = extra_names fields in
    if name == "$secret" then later else if later == "" then name else name <> ", " <> later

unfoldable pub has_extra : Fields → Bool
has_extra last_field = false
has_extra (field name value fields) =
    let later = has_extra fields in if name == "$secret" then later else true

-- The first path of an id stays.
unfoldable pub add_reference : String → String → Dict String → Dict String
add_reference id path refs = if is_some (get id refs) then refs else set id path refs

-- `collectRefs` of an object, by what it refers to and what its fields give.
unfoldable pub collect_object :
    Reference
    → Fields
    → String
    → Dict String
    → Result String (Dict String)
    → Result String (Dict String)
unfolding add_reference
collect_object plain fields path refs inner = inner
collect_object malformed fields path refs inner = err (
    path <> ": \"$secret\" must be a string id, e.g. {\"$secret\": \"…\"}. A malformed reference "
    <> "would otherwise be passed through as a plain object.")
collect_object (to id) fields path refs inner =
    if has_extra fields
    then err (
        path
        <> ": a secret reference must contain only \"$secret\" (found "
        <> extra_names fields
        <> ")")
    else if trim id == ""
    then err (path <> ": secret reference has an empty id")
    else ok (add_reference id path refs)

unfoldable mutual
  pub collect_refs : Json → String → Dict String → Result String (Dict String)
  collect_refs (text s) path refs = ok refs
  collect_refs (atom s) path refs = ok refs
  collect_refs (array items) path refs = collect_items items path 0 refs
  collect_refs (object fields) path refs =
      collect_object (reference_of fields) fields path refs (collect_fields fields path refs)

  pub collect_items : Items → String → ℕ → Dict String → Result String (Dict String)
  collect_items last_item path index refs = ok refs
  collect_items (item value items) path index refs =
      collect_refs value (path <> "[" <> show index <> "]") refs
      >>= collect_items items path (suc index)

  pub collect_fields : Fields → String → Dict String → Result String (Dict String)
  collect_fields last_field path refs = ok refs
  collect_fields (field name value fields) path refs =
      collect_refs value (path <> "." <> name) refs >>= collect_fields fields path

unfoldable pub value_for : String → Option String → Result String Json
value_for id none = err ("unresolved secret \"" <> id <> "\"")
value_for id (some value) = ok (text value)

-- `substitute` of an object, by what it refers to and what its fields give.
unfoldable pub substitute_object :
    Reference → Dict String → Result String Fields → Result String Json
unfolding value_for
substitute_object (to id) values inner = value_for id (get id values)
substitute_object plain values inner = inner >>= λ fields. ok (object fields)
substitute_object malformed values inner = inner >>= λ fields. ok (object fields)

unfoldable mutual
  pub substitute : Json → Dict String → Result String Json
  substitute (text s) values = ok (text s)
  substitute (atom s) values = ok (atom s)
  substitute (array items) values = substitute_items items values >>= λ out. ok (array out)
  substitute (object fields) values =
      substitute_object (reference_of fields) values (substitute_fields fields values)

  pub substitute_items : Items → Dict String → Result String Items
  substitute_items last_item values = ok last_item
  substitute_items (item value items) values = substitute value values >>= λ first.
      substitute_items items values >>= λ rest. ok (item first rest)

  pub substitute_fields : Fields → Dict String → Result String Fields
  substitute_fields last_field values = ok last_field
  substitute_fields (field name value fields) values = substitute value values >>= λ first.
      substitute_fields fields values >>= λ rest. ok (field name first rest)

-- What `reveal` gave for an id: an error, nothing, or the value.
unfoldable pub revealed : String → String → Result String (Option String) → Result String String
revealed id path (err message) =
    err (path <> ": could not decrypt secret \"" <> id <> "\": " <> message)
revealed id path (ok none) = err (
    path <> ": references unknown secret \"" <> id
    <> "\". It may have been deleted after this configuration was saved.")
revealed id path (ok (some value)) = ok value

-- The loop over the references.
unfoldable pub reveal_all :
    (String → Result String (Option String))
    → Dict String
    → Dict String
    → Result String (Dict String)
unfolding revealed
reveal_all reveal [] values = ok values
reveal_all reveal ((id, path) ∷ refs) values =
    revealed id path (reveal id) >>= λ value. reveal_all reveal refs (set id value values)

-- `resolveSecretRefs` once the references are collected. The list of paths that ends the message of a
-- missing store is left out.
unfoldable pub resolve_collected :
    Json → Option (String → Result String (Option String)) → Dict String → Result String Json
unfolding reveal_all
resolve_collected document store [] = ok document
resolve_collected document none (ref ∷ refs) = err (
    "configuration references "
    <> show (length (ref ∷ refs))
    <> " secret(s) but no secret store is available.")
resolve_collected document (some reveal) (ref ∷ refs) =
    reveal_all reveal (ref ∷ refs) [] >>= substitute document

unfoldable pub resolve_secret_refs :
    Json → Option (String → Result String (Option String)) → Result String Json
unfolding resolve_collected
resolve_secret_refs document store =
    collect_refs document "$" [] >>= resolve_collected document store
