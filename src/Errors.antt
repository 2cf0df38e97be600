-- ===== src/Errors.antt =====
-- packages/core/src/errors.ts: errors that a client sees as an OpenAI-style body.
use omni_model.Prelude.{
  ℕ, String, Option, none, some, List, [], ◌∷◌, leb, eqb, if◌then◌else◌, or_else,
}
use omni_model.Prelude.Text.{show}

pub record OmniError : Type 0 where
  pub status : ℕ
  pub message : String
  pub type : String
  pub code : Option String
  pub param : Option String
  pub headers : List (String × String)

pub record OmniErrorOptions : Type 0 where
  pub type : Option String
  pub code : Option String
  pub param : Option String
  pub headers : List (String × String)

abbrev pub no_options : OmniErrorOptions
no_options = record { type = none; code = none; param = none; headers = [] }

unfoldable pub default_type_for_status : ℕ → String
default_type_for_status status =
    if eqb status 401
    then "authentication_error"
    else if eqb status 403
    then "permission_error"
    else if eqb status 404
    then "not_found_error"
    else if eqb status 429
    then "rate_limit_error"
    else if leb 500 status
    then "api_error"
    else "invalid_request_error"

-- `new OmniError(status, message, options)`
unfoldable pub omni_error : ℕ → String → OmniErrorOptions → OmniError
omni_error status message options = record {
  status = status;
  message = message;
  type = or_else options.type (default_type_for_status status);
  code = options.code;
  param = options.param;
  headers = options.headers;
}

unfoldable pub bad_request : String → OmniErrorOptions → OmniError
unfolding omni_error
bad_request message options = omni_error 400 message options

unfoldable pub unauthorized : String → OmniErrorOptions → OmniError
unfolding omni_error
unauthorized message options = omni_error 401 message options

unfoldable pub forbidden : String → OmniErrorOptions → OmniError
unfolding omni_error
forbidden message options = omni_error 403 message options

unfoldable pub not_found : String → OmniErrorOptions → OmniError
unfolding omni_error
not_found message options = omni_error 404 message options

at_least_one : ℕ → ℕ
at_least_one n = if leb 1 n then n else 1

retry_headers : Option ℕ → List (String × String)
unfolding at_least_one
retry_headers none = []
retry_headers (some seconds) = ("Retry-After", show (at_least_one seconds)) ∷ []

-- `rateLimited(message, retryAfterSeconds)`, whose seconds are whole here
unfoldable pub rate_limited : String → Option ℕ → OmniError
unfolding omni_error retry_headers
rate_limited message retry_after_seconds = omni_error 429 message (record {
  type = none;
  code = some "rate_limit_exceeded";
  param = none;
  headers = retry_headers retry_after_seconds;
})

unfoldable pub upstream_error : ℕ → String → OmniError
unfolding omni_error
upstream_error status message =
    omni_error (if leb 500 status then 502 else status) message
      (record { type = some "api_error"; code = some "upstream_error"; param = none; headers = [] })
