-- ===== src/Server/Auth.antt =====
-- packages/core/src/server/auth.ts: who is calling. What a verifier makes of a request is a
-- parameter, a function of the request that answers (one that throws is outside the model); so is a
-- claim, with the claim that a whole record of claims makes.
pub mod Layers
use omni_model.Prelude.{
  ℕ, String, Bool, true, false, Option, none, some, List, [], ◌∷◌, ◌++◌, ◌==◌, if◌then◌else◌, eqb,
  or_else, or_option, any,
}
use omni_model.Prelude.Text.{◌<>◌}
use omni_model.Prelude.Dict.{Dict, set}
use omni_model.Prelude.Result.{Result, ok, err, ◌>>=◌}
use omni_model.Errors.{OmniError, OmniErrorOptions, no_options, omni_error, unauthorized}
use omni_model.Server.PublicPath.{is_public_path}

pub record Identity (C : Type 0) : Type 0 where
  pub provider : String
  pub providers : Option (List String)
  pub user_id : Option String
  pub device_id : Option String
  pub claims : Dict C

pub data AuthResult (C : Type 0) : Type 0 where
  accepted : Identity C → AuthResult C
  -- the reason, and the status if there is one
  rejected : String → Option ℕ → AuthResult C

-- `verify` answers none when the request carries no credential for the verifier.
pub record AuthVerifier (R C : Type 0) : Type 0 where
  pub type : String
  pub name : String
  pub verify : R → Option (AuthResult C)

pub data AppAuthMode : Type 0 where
  any_app all_apps : AppAuthMode

-- The parts of the bundle that the middleware reads.
pub record AuthBundle (R C : Type 0) : Type 0 where
  pub public_paths : List String
  pub user_verifier : AuthVerifier R C
  pub app_verifiers : List (AuthVerifier R C)
  pub app_auth_mode : AppAuthMode

-- A verifier and the identity that it accepted.
pub record Acceptance (R C : Type 0) : Type 0 where
  pub verifier : AuthVerifier R C
  pub identity : Identity C

unfoldable pub auth_error : String → Option ℕ → OmniError
auth_error reason none = unauthorized reason no_options
auth_error reason (some status) =
    if eqb status 401
    then unauthorized reason no_options
    else omni_error status reason (record no_options {
      code = if eqb status 503 then some "verification_unavailable" else none;
    })

-- `new Set(xs)`: the first of equal texts stays.
unfoldable pub dedupe : List String → List String → List String
dedupe seen [] = []
dedupe seen (x ∷ xs) =
    let skipped = dedupe seen xs in
    let kept = dedupe (x ∷ seen) xs in if any (λ y. y == x) seen then skipped else x ∷ kept

-- What `any` mode answers when nothing accepted, with the first failure's reason and status.
unfoldable pub no_app : Option (String × Option ℕ) → OmniError
no_app none = auth_error "app attestation required" none
no_app (some (reason, status)) = auth_error reason status

module _ {R C : Type 0} where
  unfoldable pub find_user : List (Acceptance R C) → Option (Acceptance R C)
  find_user [] = none
  find_user (e ∷ es) =
      let later = find_user es in elim e.identity.user_id [ none ↦ later | some u ↦ some e ]

  unfoldable pub find_device : List (Acceptance R C) → Option (Acceptance R C)
  find_device [] = none
  find_device (e ∷ es) =
      let later = find_device es in elim e.identity.device_id [ none ↦ later | some d ↦ some e ]

  unfoldable pub all_providers : List (Acceptance R C) → List String
  all_providers [] = []
  all_providers (e ∷ es) =
      or_else e.identity.providers (e.identity.provider ∷ []) ++ all_providers es

  -- `claims[verifier.name] = identity.claims` for each entry in turn
  unfoldable pub add_claims : (Dict C → C) → List (Acceptance R C) → Dict C → Dict C
  add_claims object [] claims = claims
  add_claims object (e ∷ es) claims =
      add_claims object es (set e.verifier.name (object e.identity.claims) claims)

  unfoldable pub user_id_of : Option (Acceptance R C) → Option String
  user_id_of none = none
  user_id_of (some e) = e.identity.user_id

  unfoldable pub device_id_of : Option (Acceptance R C) → Option String
  device_id_of none = none
  device_id_of (some e) = e.identity.device_id

  -- `mergeIdentities` of a first entry and those after it.
  unfoldable pub merge_identities :
      (Dict C → C) → Acceptance R C → List (Acceptance R C) → Identity C
  merge_identities object first rest = record {
    provider = (or_else (find_user (first ∷ rest)) first).identity.provider;
    providers = some (dedupe [] (all_providers (first ∷ rest)));
    user_id = user_id_of (find_user (first ∷ rest));
    device_id = device_id_of (find_device (first ∷ rest));
    claims = add_claims object (first ∷ rest) first.identity.claims;
  }

  -- The loop of `any` mode: a result of the verifier that it is at, and what the rest of the loop
  -- gives for a failure.
  unfoldable pub any_round :
      AuthVerifier R C
      → Option (AuthResult C)
      → Option (String × Option ℕ)
      → (Option (String × Option ℕ) → Result OmniError (List (Acceptance R C)))
      → Result OmniError (List (Acceptance R C))
  any_round v none failure rest = rest failure
  any_round v (some (accepted identity)) failure rest =
      ok (record { verifier = v; identity = identity } ∷ [])
  any_round v (some (rejected reason status)) failure rest =
      rest (or_option failure (some (reason, status)))

  unfoldable pub attest_any :
      R
      → List (AuthVerifier R C)
      → Option (String × Option ℕ)
      → Result OmniError (List (Acceptance R C))
  attest_any r [] failure = err (no_app failure)
  attest_any r (v ∷ vs) failure = any_round v (v.verify r) failure (attest_any r vs)

  -- The loop of `all` mode.
  unfoldable pub all_round :
      AuthVerifier R C
      → Option (AuthResult C)
      → Result OmniError (List (Acceptance R C))
      → Result OmniError (List (Acceptance R C))
  all_round v none rest = err (auth_error ("credential missing for " <> v.name) none)
  all_round v (some (rejected reason status)) rest = err (auth_error reason status)
  all_round v (some (accepted identity)) rest = do
    es ← rest
    ok (record { verifier = v; identity = identity } ∷ es)

  unfoldable pub attest_all : R → List (AuthVerifier R C) → Result OmniError (List (Acceptance R C))
  attest_all r [] = ok []
  attest_all r (v ∷ vs) = all_round v (v.verify r) (attest_all r vs)

  unfoldable pub attest :
      AppAuthMode → R → List (AuthVerifier R C) → Result OmniError (List (Acceptance R C))
  attest mode r [] = ok []
  attest any_app r (v ∷ vs) = attest_any r (v ∷ vs) none
  attest all_apps r (v ∷ vs) = attest_all r (v ∷ vs)

  -- Layer 1.
  unfoldable pub user_entry :
      AuthVerifier R C → Option (AuthResult C) → Result OmniError (Acceptance R C)
  user_entry v none = err (auth_error "authentication required" none)
  user_entry v (some (rejected reason status)) = err (auth_error reason status)
  user_entry v (some (accepted identity)) = ok (record { verifier = v; identity = identity })

  -- The middleware up to `next`: the identity that it sets, none on a public path.
  unfoldable pub authenticate :
      (Dict C → C) → AuthBundle R C → String → R → Result OmniError (Option (Identity C))
  authenticate object bundle path r =
      if is_public_path path bundle.public_paths then ok none else do
        user ← user_entry bundle.user_verifier (bundle.user_verifier.verify r)
        apps ← attest bundle.app_auth_mode r bundle.app_verifiers
        ok (some (merge_identities object user apps))
