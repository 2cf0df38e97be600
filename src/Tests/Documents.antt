-- ===== src/Tests/Documents.antt =====
-- A provider whose key is a secret.
use omni_model.Prelude.{String, ◌≡◌, refl, Option, none, some, if◌then◌else◌, ◌==◌}
use omni_model.Prelude.Dict.{get, set}
use omni_model.Prelude.Text.{show}
use omni_model.Prelude.Result.{Result, ok}
use omni_model.Util.Duration.{trim, is_space}
use omni_model.Secrets.Resolver.{
  Json, text, object, array, item, last_item, field, last_field, resolve_secret_refs, collect_refs,
  substitute, reference_of, has_extra, reveal_all, collect_object, substitute_object, add_reference,
  resolve_collected,
}
use omni_model.Secrets.Resolver.References.{HasNone, resolve_secret_refs-HasNone}

abbrev document : Json
document = object (
    field "type" (text "openai") (
      field "keys" (array (item (object (field "$secret" (text "s1") last_field)) last_item))
        last_field))

abbrev resolved : Json
resolved =
    object (
      field "type" (text "openai") (field "keys" (array (item (text "sk-1") last_item)) last_field))

abbrev reveal : String → Result String (Option String)
reveal id = if id == "s1" then ok (some "sk-1") else ok none

reveals : resolve_secret_refs document (some reveal) ≡ ok resolved
unfolding resolve_secret_refs collect_refs substitute reference_of has_extra reveal_all
    collect_object add_reference resolve_collected get set trim is_space show substitute_object
reveals = refl

resolve_secret_refs-HasNone_example : HasNone resolved
resolve_secret_refs-HasNone_example =
    resolve_secret_refs-HasNone document resolved (some reveal) reveals
