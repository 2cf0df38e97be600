-- ===== src/Providers/Shared.antt =====
-- packages/core/src/providers/shared.ts: the errors of an upstream API.
use omni_model.Prelude.{ℕ, String, Option, none, some, eqb, leb, if◌then◌else◌, or_else, ◌==◌}
use omni_model.Prelude.Text.{◌<>◌}
use omni_model.Server.Response.{ErrorBody}

unfoldable pub open_ai_error_body : String → String → Option String → ErrorBody
open_ai_error_body message type code = record {
  message = message;
  type = type;
  param = none;
  code = code;
}

-- What `JSON.parse` gives of an error payload: its `error`, a text or an object's message, and its
-- `message`, where they are texts.
pub record ErrorPayload : Type 0 where
  pub error_text : Option String
  pub error_message : Option String
  pub message : Option String

non_empty : Option String → Option String
non_empty none = none
non_empty (some text) = if text == "" then none else some text

first_of : Option String → Option String → Option String
first_of none later = later
first_of (some text) later = some text

-- The first 500 units of the text are a parameter, as is what it parses to.
module _ (parse : String → Option ErrorPayload) (first_500 : String → String) where
  raw_text : String → String
  raw_text body_text = if body_text == "" then "upstream request failed" else first_500 body_text

  error_message_of : String → Option ErrorPayload → String
  unfolding raw_text first_of non_empty
  error_message_of body_text none = raw_text body_text
  error_message_of body_text (some payload) =
      or_else
        (first_of payload.error_text
          (first_of (non_empty payload.error_message) (non_empty payload.message)))
        (raw_text body_text)

  unfoldable pub extract_upstream_error_message : String → String
  unfolding error_message_of
  extract_upstream_error_message body_text = error_message_of body_text (parse body_text)

  unfoldable pub error_type_by_status : ℕ → String
  error_type_by_status status =
      if eqb status 400
      then "invalid_request_error"
      else if eqb status 401
      then "authentication_error"
      else if eqb status 403
      then "permission_error"
      else if eqb status 404
      then "not_found_error"
      else if eqb status 408
      then "timeout_error"
      else if eqb status 413
      then "invalid_request_error"
      else if eqb status 422
      then "invalid_request_error"
      else if eqb status 429
      then "rate_limit_error"
      else "api_error"

  -- The status and the body of the result.
  unfoldable pub upstream_error_to_result : String → ℕ → String → ℕ × ErrorBody
  unfolding extract_upstream_error_message error_type_by_status open_ai_error_body
  upstream_error_to_result provider_id upstream_status body_text = (
    if leb 500 upstream_status then 502 else upstream_status,
    open_ai_error_body
        ("[provider " <> provider_id <> "] " <> extract_upstream_error_message body_text)
        (if leb 500 upstream_status then "api_error" else error_type_by_status upstream_status)
        (some "upstream_error"),
  )
