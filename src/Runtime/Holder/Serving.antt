-- ===== src/Runtime/Holder/Serving.antt =====
-- A bad configuration never takes a running proxy down.
use omni_model.Prelude.{
  ℕ, String, ◌≡◌, refl, ap, ◌∙◌, true, false, Option, none, some, List, [], ◌∷◌, or_option,
}
use omni_model.Prelude.Result.{Result, ok, err}
use omni_model.Runtime.Holder.{
  ReloadResult, built, rejected, BundleHolder, reject, finish, build_resolved, build, validate,
  reload,
}

-- A call of the holder.
pub data Call (D : Type 0) : Type 0 where
  reloads : D → Option ℕ → Call D
  validates : D → Call D

-- The bundle that a document makes, if it makes one.
abbrev pub bundle_of : {B : Type 0} → ReloadResult B → Option B
bundle_of (built b) = some b
bundle_of (rejected message kind) = none

abbrev pub error_of : {B : Type 0} → ReloadResult B → Option String
error_of (built b) = none
error_of (rejected message kind) = some message

module _ {D B : Type 0} (resolve_secrets : D → Result String D)
    (build_bundle : D → Option ℕ → Result String B) where
  abbrev pub call : Call D → BundleHolder B → BundleHolder B
  call (reloads document revision) holder =
      (reload resolve_secrets build_bundle document revision holder).1
  call (validates document) holder = (validate resolve_secrets build_bundle document holder).1

  abbrev pub run : List (Call D) → BundleHolder B → BundleHolder B
  run [] holder = holder
  run (c ∷ cs) holder = run cs (call c holder)

  -- What a reload would answer, whatever is being served.
  abbrev pub outcome : D → Option ℕ → ReloadResult B
  outcome document revision =
      (reload resolve_secrets build_bundle document revision
        (record { bundle = none; last_error = none })).0

  -- The bundle of the last reload that built one.
  abbrev pub last_built : List (Call D) → Option B → Option B
  last_built [] before = before
  last_built (reloads document revision ∷ cs) before =
      last_built cs (or_option (bundle_of (outcome document revision)) before)
  last_built (validates document ∷ cs) before = last_built cs before

  -- The message of the last reload, if it was rejected.
  abbrev pub last_failure : List (Call D) → Option String → Option String
  last_failure [] before = before
  last_failure (reloads document revision ∷ cs) before =
      last_failure cs (error_of (outcome document revision))
  last_failure (validates document ∷ cs) before = last_failure cs before

  abbrev empty_holder : BundleHolder B
  empty_holder = record { bundle = none; last_error = none }

  finish-reload :
      (out : Result String B) (holder : BundleHolder B)
      → (finish resolve_secrets build_bundle true out holder).1 ≡ record {
        bundle =
            or_option
              (bundle_of (finish resolve_secrets build_bundle true out empty_holder).0)
              holder.bundle;
        last_error = error_of (finish resolve_secrets build_bundle true out empty_holder).0;
      }
  unfolding finish reject
  finish-reload (ok next) holder = refl
  finish-reload (err message) holder = refl

  build_resolved-reload :
      (revision : Option ℕ) (out : Result String D) (holder : BundleHolder B)
      → (build_resolved resolve_secrets build_bundle true revision out holder).1 ≡ record {
        bundle =
            or_option
              (bundle_of
                (build_resolved resolve_secrets build_bundle true revision out empty_holder).0)
              holder.bundle;
        last_error =
            error_of (build_resolved resolve_secrets build_bundle true revision out empty_holder).0;
      }
  unfolding build_resolved reject
  build_resolved-reload revision (ok resolved) holder =
      finish-reload (build_bundle resolved revision) holder
  build_resolved-reload revision (err message) holder = refl

  call-reloads :
      (document : D) (revision : Option ℕ) (holder : BundleHolder B)
      → call (reloads document revision) holder ≡ record {
        bundle = or_option (bundle_of (outcome document revision)) holder.bundle;
        last_error = error_of (outcome document revision);
      }
  unfolding reload build
  call-reloads document revision holder =
      build_resolved-reload revision (resolve_secrets document) holder

  finish-validate :
      (out : Result String B) (holder : BundleHolder B)
      → (finish resolve_secrets build_bundle false out holder).1 ≡ holder
  unfolding finish reject
  finish-validate (ok next) holder = refl
  finish-validate (err message) holder = refl

  build_resolved-validate :
      (out : Result String D) (holder : BundleHolder B)
      → (build_resolved resolve_secrets build_bundle false none out holder).1 ≡ holder
  unfolding build_resolved reject
  build_resolved-validate (ok resolved) holder = finish-validate (build_bundle resolved none) holder
  build_resolved-validate (err message) holder = refl

  call-validates :
      (document : D) (holder : BundleHolder B) → call (validates document) holder ≡ holder
  unfolding validate build
  call-validates document holder = build_resolved-validate (resolve_secrets document) holder

  -- After any calls the holder serves the bundle of the last reload that built one, or else the one
  -- that it served before, and its error is that of the last reload, none when that reload was
  -- applied; validating changes neither.
  pub run-last_built :
      (calls : List (Call D)) (holder : BundleHolder B)
      → ((run calls holder).bundle ≡ last_built calls holder.bundle)
        × ((run calls holder).last_error ≡ last_failure calls holder.last_error)
  run-last_built [] holder = (refl, refl)
  run-last_built (reloads document revision ∷ calls) holder =
      let (served, failed) = run-last_built calls (call (reloads document revision) holder) in
      let after = call-reloads document revision holder in
      (
        served ∙ ap (λ h. last_built calls h.bundle) after,
        failed ∙ ap (λ h. last_failure calls h.last_error) after,
      )
  run-last_built (validates document ∷ calls) holder =
      let (served, failed) = run-last_built calls (call (validates document) holder) in
      let after = call-validates document holder in
      (
        served ∙ ap (λ h. last_built calls h.bundle) after,
        failed ∙ ap (λ h. last_failure calls h.last_error) after,
      )
