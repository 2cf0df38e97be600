-- ===== src/Tests/Configurations.antt =====
-- Documents that are numbers: even ones make a bundle, and those over ten refer to a missing secret.
use omni_model.Prelude.{
  ℕ, ◌%◌, suc, String, ◌≡◌, refl, Option, none, some, List, [], ◌∷◌, if◌then◌else◌, eqb, ltb,
  length, true,
}
use omni_model.Prelude.Result.{Result, ok, err}
use omni_model.ConfigStore.{SaveConfigOptions, MemoryConfigStore, save, load_active, get_revision}
use omni_model.ConfigStore.History.{NumberedFrom, save_appends}
use omni_model.Runtime.Holder.{
  BundleHolder, reload, validate, build, build_resolved, finish, reject,
}
use omni_model.Runtime.Holder.Serving.{
  Call, reloads, validates, run, last_built, last_failure, run-last_built,
}

abbrev no_options : SaveConfigOptions
no_options = record { created_by = none; note = none }

abbrev one_revision : MemoryConfigStore ℕ
one_revision = record {
  revisions =
      record {
        stored = record {
          revision = 1;
          document = 4;
          created_at = 0;
          created_by = none;
          note = none;
        };
        active = true;
      }
      ∷ [];
  listeners = 7 ∷ [];
}

save_appends_example :
    let (stored, told, after) = save 8 no_options 50 one_revision in
    (load_active after ≡ some stored)
    × (stored.revision ≡ suc (length one_revision.revisions))
    × (get_revision 1 after ≡ (
        if eqb 1 (suc (length one_revision.revisions))
        then some stored
        else get_revision 1 one_revision))
    × NumberedFrom 1 after.revisions
save_appends_example = save_appends 8 no_options 50 1 one_revision (refl, tt)

abbrev resolve : ℕ → Result String ℕ
resolve n = if ltb 10 n then err "unknown secret" else ok n

abbrev make : ℕ → Option ℕ → Result String ℕ
make n revision = if eqb (n % 2) 0 then ok n else err "odd"

abbrev unconfigured : BundleHolder ℕ
unconfigured = record { bundle = none; last_error = none }

abbrev calls : List (Call ℕ)
calls = reloads 4 (some 1) ∷ validates 6 ∷ reloads 3 (some 2) ∷ reloads 12 (some 3) ∷ []

still_served :
    run resolve make calls unconfigured
    ≡ record { bundle = some 4; last_error = some "unknown secret" }
unfolding reload validate build build_resolved finish reject
still_served = refl

run-last_built_example :
    ((run resolve make calls unconfigured).bundle
      ≡ last_built resolve make calls unconfigured.bundle)
    × ((run resolve make calls unconfigured).last_error
        ≡ last_failure resolve make calls unconfigured.last_error)
run-last_built_example = run-last_built resolve make calls unconfigured
