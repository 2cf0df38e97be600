-- ===== src/Server/Clients.antt =====
-- packages/core/src/server/writekey.ts: which application is calling. A store is what it answers for
-- a secret.
pub mod Validation
use omni_model.Prelude.{
  ℕ, String, List, [], ◌∷◌, Bool, true, false, Option, none, some, ◌==◌, if◌then◌else◌,
}
use omni_model.Prelude.Result.{Result, ok, err}
use omni_model.Errors.{OmniError, no_options, unauthorized}
use omni_model.Util.Duration.{trim}
use omni_model.Server.PublicPath.{is_public_path}
use omni_model.Server.KeyShape.{presented_secret, looks_like_write_key}
use omni_model.WriteKeys.{WriteKey, WriteKeyState, active, revoked, expired, write_key_state}

unfoldable pub key_error : String → String → OmniError
key_error reason code =
    unauthorized reason
      (record no_options { code = some code; headers = ("WWW-Authenticate", "Bearer") ∷ [] })

-- Whether a key may be missing, and what is answered when it may not.
unfoldable pub unless_required : Bool → OmniError → Result OmniError (Option WriteKey)
unless_required true e = err e
unless_required false e = ok none

-- A header that is absent or blank presents nothing.
unfoldable pub presented : Option String → Option String
presented none = none
presented (some value) = if trim value == "" then none else some value

unfoldable pub check_state : WriteKey → WriteKeyState → Result OmniError (Option WriteKey)
check_state key active = ok (some key)
check_state key revoked = err (key_error "this client key has been revoked" "write_key_revoked")
check_state key expired = err (key_error "this client key has expired" "write_key_expired")

unfoldable pub check_key : ℕ → Option WriteKey → Result OmniError (Option WriteKey)
check_key now none = err (key_error "invalid client key" "write_key_invalid")
check_key now (some key) = check_state key (write_key_state key now)

-- `looksLikeWriteKey(secret) ? await store.authenticate(secret) : null`
unfoldable pub look_up : (String → Option WriteKey) → String → Option WriteKey
look_up store secret = if looks_like_write_key secret then store secret else none

unfoldable pub check_secret :
    Option (String → Option WriteKey)
    → Bool
    → ℕ
    → Option String
    → Result OmniError (Option WriteKey)
check_secret store required now none =
    err (key_error "invalid publishable key authorization" "write_key_invalid")
check_secret none required now (some secret) = unless_required required (
    key_error "client keys are required but no write key store is configured"
      "write_key_unavailable")
check_secret (some store) required now (some secret) = check_key now (look_up store secret)

unfoldable pub check_header :
    Option (String → Option WriteKey)
    → Bool
    → ℕ
    → Option String
    → Result OmniError (Option WriteKey)
check_header store required now none =
    unless_required required
      (key_error "missing publishable key: send Authorization: Bearer <key>" "write_key_required")
check_header store required now (some value) =
    check_secret store required now (presented_secret value)

-- The middleware up to `next`: the write key that it sets.
unfoldable pub identify :
    Option (String → Option WriteKey)
    → Bool
    → List String
    → ℕ
    → String
    → Option String
    → Result OmniError (Option WriteKey)
identify store required public_paths now path header =
    if is_public_path path public_paths
    then ok none
    else check_header store required now (presented header)
