-- ===== src/Server/JsonObject.antt =====
-- `readJsonObject` of packages/core/src/server/routes/chat.ts: the body of a request, up to its
-- ceiling. The platform's JSON is a parameter: what a text of these bytes parses to, and the code
-- points of an object's text.
pub mod Accepted
use omni_model.Prelude.{
  ℕ, ◌+◌, Bool, Option, none, some, List, [], ◌∷◌, ◌++◌, ltb, length, if◌then◌else◌,
}
use omni_model.Prelude.Result.{Result, ok, err, ◌>>=◌, ◌>>◌}
use omni_model.Errors.{OmniError, bad_request, no_options}
use omni_model.Util.InputTokens.{input_token_body_byte_ceiling}
use omni_model.Server.InputLimit.{input_token_limit_exceeded, enforce_input_token_limit}

-- What arrives: the declared length where it is a number, and the chunks of the body, if there is one,
-- with whether the stream broke off after them.
pub record Incoming : Type 0 where
  pub content_length : Option ℕ
  pub body : Option (List (List ℕ))
  pub broke : Bool

-- What `JSON.parse` makes of a text.
pub data Parsed (J : Type 0) : Type 0 where
  not_json : Parsed J
  -- null, an array, or no object at all
  other_value : Parsed J
  object : J → Parsed J

invalid_json : OmniError
invalid_json =
    bad_request "request body is not valid JSON"
      (record { type = none; code = some "invalid_json"; param = none; headers = [] })

append_to : List ℕ → Result OmniError (List ℕ) → Result OmniError (List ℕ)
append_to chunk (ok rest) = ok (chunk ++ rest)
append_to chunk (err thrown) = err thrown

-- The loop of `readBodyText` after some bytes.
unfoldable pub read_chunks : ℕ → ℕ → List (List ℕ) → Bool → Result OmniError (List ℕ)
unfolding append_to invalid_json
read_chunks max_input_tokens size [] broke = if broke then err invalid_json else ok []
read_chunks max_input_tokens size (chunk ∷ chunks) broke =
    let rest = append_to chunk (read_chunks max_input_tokens (size + length chunk) chunks broke) in
    if ltb (input_token_body_byte_ceiling max_input_tokens) (size + length chunk)
    then err (input_token_limit_exceeded max_input_tokens)
    else rest

unfoldable pub read_body_text : ℕ → Incoming → Result OmniError (List ℕ)
unfolding read_chunks
read_body_text max_input_tokens incoming = elim incoming.body [
  | none ↦ ok []
  | some chunks ↦ read_chunks max_input_tokens 0 chunks incoming.broke
]

unfoldable pub declared_within : ℕ → Incoming → Result OmniError (Unit {0})
declared_within max_input_tokens incoming = elim incoming.content_length [
  | none ↦ ok tt
  | some declared ↦
      if ltb (input_token_body_byte_ceiling max_input_tokens) declared
      then err (input_token_limit_exceeded max_input_tokens)
      else ok tt
]

module _ {J : Type 0} (parse : List ℕ → Parsed J) (stringify : J → List ℕ) where
  object_of : Parsed J → Result OmniError J
  unfolding invalid_json
  object_of not_json = err invalid_json
  object_of other_value = err (bad_request "request body must be a JSON object" no_options)
  object_of (object value) = ok value

  unfoldable pub read_json_object : ℕ → Incoming → Result OmniError J
  unfolding object_of
  read_json_object max_input_tokens incoming = do
    declared_within max_input_tokens incoming
    bytes ← read_body_text max_input_tokens incoming
    value ← object_of (parse bytes)
    checked ← enforce_input_token_limit (stringify value) max_input_tokens
    ok value
