-- ===== src/Runtime/Holder.antt =====
-- packages/core/src/runtime/holder.ts: the bundle that is served, and how it is replaced. Resolving
-- the secrets of a document and building a bundle are parameters that may fail with a message; a
-- call is the step that it makes once the secrets are resolved.
pub mod Serving
use omni_model.Prelude.{ℕ, String, Bool, true, false, Option, none, some, is_some, if◌then◌else◌}
use omni_model.Prelude.Result.{Result, ok, err}

pub data RejectKind : Type 0 where
  invalid_config unresolved_secret : RejectKind

pub data ReloadResult (B : Type 0) : Type 0 where
  built : B → ReloadResult B
  rejected : String → RejectKind → ReloadResult B

pub record BundleHolder (B : Type 0) : Type 0 where
  pub bundle : Option B
  pub last_error : Option String

pub record BundleStatus : Type 0 where
  pub configured : Bool
  pub revision : Option ℕ
  pub last_error : Option String

unfoldable pub revision_in : {B : Type 0} → (B → Option ℕ) → Option B → Option ℕ
revision_in revision_of none = none
revision_in revision_of (some b) = revision_of b

-- `status`, with what reads a bundle's revision.
unfoldable pub status : {B : Type 0} → (B → Option ℕ) → BundleHolder B → BundleStatus
status revision_of holder = record {
  configured = is_some holder.bundle;
  revision = revision_in revision_of holder.bundle;
  last_error = holder.last_error;
}

module _ {D B : Type 0} (resolve_secrets : D → Result String D)
    (build_bundle : D → Option ℕ → Result String B) where
  -- `reject`
  unfoldable pub reject :
      Bool → String → RejectKind → BundleHolder B → ReloadResult B × BundleHolder B
  reject apply message kind holder =
      (rejected message kind, if apply then record holder { last_error = some message } else holder)

  unfoldable pub finish : Bool → Result String B → BundleHolder B → ReloadResult B × BundleHolder B
  unfolding reject
  finish apply (err message) holder = reject apply message invalid_config holder
  finish apply (ok next) holder =
      (built next, if apply then record { bundle = some next; last_error = none } else holder)

  unfoldable pub build_resolved :
      Bool → Option ℕ → Result String D → BundleHolder B → ReloadResult B × BundleHolder B
  unfolding reject finish
  build_resolved apply revision (err message) holder = reject apply message unresolved_secret holder
  build_resolved apply revision (ok resolved) holder =
      finish apply (build_bundle resolved revision) holder

  unfoldable pub build : Bool → D → Option ℕ → BundleHolder B → ReloadResult B × BundleHolder B
  unfolding build_resolved
  build apply document revision holder =
      build_resolved apply revision (resolve_secrets document) holder

  unfoldable pub validate : D → BundleHolder B → ReloadResult B × BundleHolder B
  unfolding build
  validate document holder = build false document none holder

  unfoldable pub reload : D → Option ℕ → BundleHolder B → ReloadResult B × BundleHolder B
  unfolding build
  reload document revision holder = build true document revision holder
